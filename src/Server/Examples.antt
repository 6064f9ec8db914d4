-- ===== src/Server/Examples.antt =====
-- Sample requests to the handlers, on which the theorems are applied.
use lapinq.Prelude.{
  ℕ, ◌+◌, ◌≡◌, ◌≢◌, ◌⊎◌, String, Bool, true, refl, none, some, List, [], ◌∷◌, ◌++◌, ◌==◌, false,
  if◌then◌else◌, str_eq, arith,
}
use lapinq.Prelude.Int.{pos}
use lapinq.Prelude.Lists.{All, all, length, count}
use lapinq.Json.{Json, null, int, str, arr, nil, cons, obj, Fields, end, field}
use lapinq.Storage.Task.{Task, Table, pending, find_task}
use lapinq.Storage.Enqueue.{enqueue, insert}
use lapinq.Storage.Examples.{three}
use lapinq.Server.Enqueueing.{
  created, refused, get, Readers, Post, length_of, check_size, request_of, check_post,
  enqueue_handler,
}
use lapinq.Server.Enqueueing.Answers.{enqueue_handler-answers}
use lapinq.Storage.Finish.{cancel_task}
use lapinq.Storage.Retry.{requeue_task}
use lapinq.Storage.Queries.{get_task}
use lapinq.Server.Metrics.{metrics, queue_lines}
use lapinq.Storage.Task.{nan}
use lapinq.Storage.Finish.{update_progress}
use lapinq.Server.Remaining.{task_response, format_ttl}
use lapinq.Server.Remaining.Answering.{is_answered}
use lapinq.Server.Handlers.{
  values, json, literal, crash, done, get_task_handler, cancel_task_handler, requeue_task_handler,
  failure, update_progress_handler,
}
use lapinq.Storage.Users.{Codec, User, lapinq_text, ensure_default_admin, authenticate}
use lapinq.Server.Session.{text_of}
use lapinq.Server.Administration.{said, is_admin, Call, changes_password, administer}
use lapinq.Server.Administration.Guarded.{KnowsPassword, administer-guarded}
use lapinq.Storage.Batch
use lapinq.Storage.Queries.{meets}
use lapinq.Server.Batching
use lapinq.Server.Batching.{check_names, enqueue_batch_handler}
use lapinq.Server.Batching.Answers.{Says, enqueue_batch_handler-answers}
use lapinq.Server.Listing
use lapinq.Server.Listing.{delete_tasks_handler, tasks, parse_int_param, Params, list_tasks_handler}
use lapinq.Server.Listing.Replies.{list_tasks_handler-delete_tasks_handler}
use lapinq.Scheduler.Cron.{parse_int, digits_from}
use lapinq.Server.Handlers.Bounds.{HasPercent, update_progress_handler-HasPercent}

abbrev readers : Readers
readers = record {
  float_of = λ s. none;
  instant_of = λ s. none;
  size_of = λ j. 80;
  max_payload = 102_400;
}

abbrev send : Fields
send = field "task_name" (str "send") (field "module_path" (str "app.tasks") end)

abbrev post : Post
post = record { content_length = none; body = some (obj send) }

abbrev nameless : Post
nameless = record { content_length = none; body = some (obj end) }

stored : (enqueue_handler readers 9 30 post three).0 ≡ created (some 9)
unfolding enqueue_handler check_post check_size length_of request_of get enqueue insert
stored = refl

unnamed : enqueue_handler readers 9 30 nameless three ≡ (refused 400 "task_name is required", three)
unfolding enqueue_handler check_post check_size length_of request_of get enqueue insert
unnamed = refl

enqueue_handler-answers_example :
    ((row : Task) × (enqueue_handler readers 9 30 post three
        ≡ (created (some 9), three ++ row ∷ []))
      × (row.id ≡ 9)
      × (find_task 9 three ≡ none)
      × (row.status ≡ pending)
      × (row.attempts ≡ 0)
      × (row.task_name ≢ "")
      × (row.module_path ≢ ""))
    ⊎ (((enqueue_handler readers 9 30 post three).1 ≡ three)
        × ((k : ℕ) → (enqueue_handler readers 9 30 post three).0 ≢ created (some k)))
enqueue_handler-answers_example = enqueue_handler-answers readers 9 30 post three

too_much :
    update_progress_handler (some 2) (some (values (json (int (pos 101))) (json null))) three
    ≡ (failure 400 "progress must be between 0 and 100", three)
unfolding update_progress_handler
too_much = refl

-- A NaN passes the test of the range, and the task can no longer be answered with.
not_a_number :
    ((update_progress_handler (some 2) (some (values (literal nan) (json null))) three).0
      ≡ done "ok")
    × (get_task_handler false 30
          (some 2)
          (update_progress_handler (some 2) (some (values (literal nan) (json null))) three).1
        ≡ crash)
unfolding update_progress_handler update_progress get_task_handler get_task task_response format_ttl
not_a_number = (refl, refl)

update_progress_handler-HasPercent_example :
    All
      (HasPercent false)
      (update_progress_handler (some 2) (some (values (json (int (pos 50))) (json null))) three).1
update_progress_handler-HasPercent_example =
    update_progress_handler-HasPercent false (some 2)
      (some (values (json (int (pos 50))) (json null))) three refl (tt, (tt, (tt, tt)))

cancelled_twice :
    ((cancel_task_handler 30 (some 2) three).0 ≡ done "cancelled")
    × ((cancel_task_handler 31 (some 2) (cancel_task_handler 30 (some 2) three).1).0
        ≡ failure 404 "task not found or not pending")
unfolding cancel_task_handler cancel_task
cancelled_twice = (refl, refl)

not_failed : (requeue_task_handler 30 (some 2) three).0 ≡ failure 404 "task not found or not failed"
unfolding requeue_task_handler requeue_task
not_failed = refl

absent_task : get_task_handler false 30 (some 9) three ≡ failure 404 "task not found"
unfolding get_task_handler get_task
absent_task = refl

abbrev root : Call
root = record {
  caller = some (record {
    uid = text_of "1";
    username = text_of "root";
    role = text_of "admin";
    expires = 90;
  });
  target = some 2;
  body = none;
  id = 3;
  now = 40;
  salt = [];
}

abbrev plain : Codec
plain = record { pbkdf2 = λ p s n. p; encode = λ t. t; decode = λ t. some t }

abbrev admins : List User
admins = ensure_default_admin plain 1 10 (b'a' ∷ []) []

abbrev own_password : Call
own_password = record root {
  caller =
      some
        (record { uid = text_of "1"; username = lapinq_text; role = text_of "user"; expires = 90 });
  body =
      some
        (obj (field "current_password" (str "lapinq") (field "new_password" (str "secret") end)));
}

-- The caller is no administrator and the table changes.
own_password_changes :
    (administer plain (λ j. j) (λ t. some 1) changes_password own_password admins).0 ≡ said "ok"
unfolding administer ensure_default_admin get authenticate
own_password_changes = refl

administer-guarded_example :
    ((administer plain (λ j. j) (λ t. some 1) changes_password own_password admins).1 ≡ admins)
    ⊎ ((is_admin own_password.caller ≡ true)
        ⊎ ((changes_password ≡ changes_password)
            × KnowsPassword plain (λ j. j) own_password admins))
administer-guarded_example =
    administer-guarded plain (λ j. j) (λ t. some 1) changes_password own_password admins

abbrev draw : ℕ → ℕ × ℕ
draw n = (n + 20, n + 40)

abbrev dated : Fields
dated = field "task_name" (str "send") (field "scheduled_at" (str "2026-01-01T00:00:00+00:00") end)

-- A dictionary with a scheduled_at is refused by the driver, once the one before it is stored.
dated_crashes :
    (enqueue_batch_handler draw (some (arr (cons (obj send) (cons (obj dated) nil)))) three).0
    ≡ Batching.crashed
unfolding enqueue_batch_handler check_names get Batching.enqueue_dicts Batching.item_of
    Batching.look Batch.insert_item Batch.item_row insert
dated_crashes = refl

abbrev two_of_them : Json
two_of_them = arr (cons (obj send) (cons (obj dated) nil))

enqueue_batch_handler-answers_example :
    (rows : Table) × ((enqueue_batch_handler draw (some two_of_them) three).1 ≡ three ++ rows)
    × Says draw
        (some two_of_them)
        three
        (enqueue_batch_handler draw (some two_of_them) three).0
        rows
enqueue_batch_handler-answers_example = enqueue_batch_handler-answers draw (some two_of_them) three

abbrev contains : String → String → Bool
contains a b = str_eq a b

abbrev text : Json → String
text j = ""

abbrev mail : Params
mail = record {
  queue = some "mail";
  status = none;
  task_name = none;
  args = none;
  result = none;
  error = none;
  limit = some (text_of "2");
}

abbrev all_mail : Params
all_mail = record mail { limit = some (text_of "9") }

list_tasks_handler-delete_tasks_handler_example :
    (us : List Task) × (list_tasks_handler contains text false 30 all_mail three
      ≡ (if all (is_answered false) us then tasks us else Listing.crashed))
    × ((delete_tasks_handler contains text all_mail three).0 ≡ Listing.deleted (length us))
    × (count (λ t. t.id == 1) us
          + count (λ t. t.id == 1) (delete_tasks_handler contains text all_mail three).1
        ≡ count (λ t. t.id == 1) three)
    × (list_tasks_handler contains text false 30 all_mail
          (delete_tasks_handler contains text all_mail three).1
        ≡ tasks [])
unfolding parse_int_param parse_int digits_from meets
list_tasks_handler-delete_tasks_handler_example =
    list_tasks_handler-delete_tasks_handler contains text false 30 all_mail 9 (λ t. t.id == 1) three
      refl refl refl refl (omega arith) (omega arith)

nothing_queued :
    metrics []
    ≡ "# HELP lapinq_tasks Task counts by queue and status" ∷ "# TYPE lapinq_tasks gauge"
      ∷ "# HELP lapinq_info Lapinq metadata" ∷ "# TYPE lapinq_info gauge"
      ∷ "lapinq_info{version=\"1.3.0\"} 1" ∷ "" ∷ []
nothing_queued = refl

one_failed :
    queue_lines (record {
      queue_name = "mail";
      pending = 0;
      running = 0;
      completed = 12;
      failed = 1;
      cancelled = 0;
    })
    ≡ "lapinq_tasks{queue=\"mail\",status=\"pending\"} 0"
      ∷ "lapinq_tasks{queue=\"mail\",status=\"running\"} 0"
      ∷ "lapinq_tasks{queue=\"mail\",status=\"completed\"} 12"
      ∷ "lapinq_tasks{queue=\"mail\",status=\"failed\"} 1"
      ∷ "lapinq_tasks{queue=\"mail\",status=\"cancelled\"} 0" ∷ []
one_failed = refl
