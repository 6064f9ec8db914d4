-- ===== src/Client/Examples.antt =====
-- A task that is polled until it is cancelled, and one that is sent, run and fetched.
use lapinq.Prelude.{
  ℕ, ◌≡◌, ◌≢◌, refl, ap, String, Bool, false, ◌⊎◌, inl, inr, none, some, [], ◌∷◌, ◌++◌, arith,
}
use lapinq.Prelude.Int.{pos}
use lapinq.Json.{null, nil, str, obj, end, field, is_truthy}
use lapinq.Storage.Task.{Task, completed}
use lapinq.Storage.Enqueue.{new_row}
use lapinq.Storage.Claim.{claimed, claim_task, select_first, is_claimable}
use lapinq.Storage.Queries.{TaskResult}
use lapinq.Server.Enqueueing.{created, Readers, Post, length_of, enqueue_handler}
use lapinq.Server.Handlers.{result_is}
use lapinq.Worker.Process.{returned, Answers, process_task}
use lapinq.Client.Payload.{
  TaskQueue, Function, Options, bare_options, Registered, register, build_payload,
}
use lapinq.Client.Payload.Sending.{wanted, enqueue_handler-register}
use lapinq.Client.Delivery.{wait-enqueue_handler}
use lapinq.Storage.Task.{cancelled, Table}
use lapinq.Storage.Finish.{cancel_task}
use lapinq.Storage.Queries.{get_task_result}
use lapinq.Storage.Examples.{three}
use lapinq.Server.Handlers.{unfinished, get_task_result_handler}
use lapinq.Client.{wait}
use lapinq.Client.Waiting.{first_final, answered, wait-first_final}

abbrev later : Table
later = (cancel_task 30 2 three).1

not_finished : wait 2 (three ∷ later ∷ []) ≡ some (unfinished cancelled)
unfolding wait get_task_result_handler get_task_result cancel_task
not_finished = refl

wait-first_final_example :
    wait 2 (three ∷ later ∷ []) ≡ answered (first_final 2 (three ∷ later ∷ []))
wait-first_final_example = wait-first_final 2 (three ∷ later ∷ [])

abbrev queue : TaskQueue
queue = record { queue_name = "mail"; default_ttl_seconds = some (pos 60_000_000) }

abbrev send : Function
send = record { name = "send"; qualname = "send"; module_name = some "app.tasks" }

abbrev options : Options
options = record (bare_options queue) { priority = pos 7; metadata = some (field "a" null end) }

abbrev kept : Registered
kept = record {
  task_name = "send";
  qualified_name = "app.tasks.send";
  module_path = "app.tasks";
  queue_name = "mail";
  effective_ttl = some (pos 60_000_000);
  options = options;
}

abbrev readers : Readers
readers = record {
  float_of = λ s. none;
  instant_of = λ s. none;
  size_of = λ j. 80;
  max_payload = 102_400;
}

abbrev post : Post
post = record { content_length = none; body = some (obj (build_payload kept nil end)) }

abbrev row : Task
row = new_row 9 30 (wanted queue options send "app.tasks" none nil end)

named : send.name ≢ ""
named e = ground (arith, ap (λ t. is_truthy (str t)) e)

placed : kept.module_path ≢ ""
placed e = ground (arith, ap (λ t. is_truthy (str t)) e)

enqueue_handler-register_example :
    enqueue_handler readers 9 30 post three ≡ (created (some 9), three ++ row ∷ [])
unfolding register length_of
enqueue_handler-register_example =
    enqueue_handler-register readers queue options send "app.tasks" kept nil end none 9 30 post
      three refl refl named placed refl refl refl refl refl refl refl refl

abbrev stored : Table
stored = row ∷ []

abbrev job : Task
job = claimed "w" 40 row

abbrev taken : Table
taken = job ∷ []

abbrev fine : Answers String
fine = record { run = returned (some "42"); now = 50; complete_error = none; fail_error = none }

abbrev free : ℕ → Bool
free i = false

abbrev encode : String → String ⊎ String
encode s = inr s

wait-enqueue_handler_example :
    (r : TaskResult) × (wait 9 (stored ∷ taken ∷ (process_task encode job fine taken).table ∷ [])
      ≡ some (result_is r))
    × (r.id ≡ 9)
    × (r.status ≡ completed)
    × (r.result ≡ some "42")
    × (r.completed_at ≡ some 50)
unfolding claim_task select_first is_claimable new_row register length_of
wait-enqueue_handler_example =
    wait-enqueue_handler readers 9 30 40 post [] stored taken "w" free job encode fine "42" "42"
      (stored ∷ taken ∷ []) [] tt
      (enqueue_handler-register readers queue options send "app.tasks" kept nil end none 9 30 post
        [] refl refl named placed refl refl refl refl refl refl refl refl)
      refl refl refl refl refl refl (inl refl, (inr refl, tt))
