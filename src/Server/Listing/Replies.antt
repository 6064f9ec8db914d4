-- ===== src/Server/Listing/Replies.antt =====
-- What the listing handlers answer for any query parameters.
use lapinq.Prelude.{
  ℕ, ◌≤◌, ◌<◌, ◌^◌, ◌≡◌, refl, sym, ap, ◌∙◌, String, Bool, true, false, ◌&&◌, Option, none, some,
  List, [], ◌∷◌, arith, str_eq, ltb, not, if◌then◌else◌, ◌+◌,
}
use lapinq.Prelude.Int.{pos}
use lapinq.Prelude.Lists.{All, All-map, all, length, count}
use lapinq.Json.{Json}
use lapinq.Storage.Task.{Task, Table, status_name}
use lapinq.Storage.Queries.{
  meets, when_given, list_filters, list_tasks, list_failed_tasks, delete_tasks,
}
use lapinq.Storage.Queries.Listing.{
  IsNewestFirst, list_tasks_lem, list_tasks_complete, delete_tasks_lem,
}
use lapinq.Storage.Queries.Inclusion.{min, length-list_tasks, count-list_tasks}
use lapinq.Server.Remaining.Answering.{is_answered, task_responses_lem}
use lapinq.Server.Listing.{
  tasks, deleted, crashed, tasks_or_crash, parse_int_param, or_none, Params, list_tasks_handler,
  list_failed_tasks_handler, delete_filters, delete_tasks_handler,
}

given : (o : Option String) (test : String → Bool) → when_given (or_none o) test ≡ when_given o test
given none test = refl
given (some String.[]) test = refl
given (some (String.◌∷◌ c s)) test = refl

count_split :
    (p q : Task → Bool) (ts : Table)
    → count (λ t. p t && q t) ts + count (λ t. not (p t) && q t) ts ≡ count q ts
count_split p q [] = refl
count_split p q (t ∷ ts) = ground (arith, count_split p q ts)

count_same : (p q : Task → Bool) (ts : Table) → ((t : Task) → p t ≡ q t) → count p ts ≡ count q ts
count_same p q [] h = refl
count_same p q (t ∷ ts) h = ground (arith, h t, count_same p q ts h)

count_unmet : (q : Task → Bool) (ts : Table) → All (λ t. q t ≡ false) ts → count q ts ≡ 0
count_unmet q [] h = refl
count_unmet q (t ∷ ts) h = ground (arith, h.0, count_unmet q ts h.1)

no_min : (n c : ℕ) → c ≡ 0 → min n c ≡ 0
no_min n c e = ground arith

whole_min : (n c : ℕ) → c ≤ n → min n c ≡ c
whole_min n c h = ground arith

is_empty : (us : List Task) → length us ≡ 0 → us ≡ []
is_empty [] h = refl
is_empty (u ∷ us) h = absurd (omega arith)

module _ (contains : String → String → Bool) (text : Json → String) (writes_nan : Bool) where
  answers_tasks :
      (now : ℕ) (p : Params) (n : ℕ) (ts : Table)
      → parse_int_param p.limit 50 ≡ some (pos n)
      → n < 2 ^ 63
      → list_tasks_handler contains text writes_nan now p ts ≡ (
          if all
            (is_answered writes_nan)
            (list_tasks contains text p.queue p.status p.task_name n ts)
          then tasks (list_tasks contains text p.queue p.status p.task_name n ts)
          else crashed)
  unfolding list_tasks_handler
  answers_tasks now p n ts e small =
      let us = list_tasks contains text p.queue p.status p.task_name n ts in
      let fits : ltb n (2 ^ 63) ≡ true = ground (arith, small) in
      rw (e, fits, task_responses_lem writes_nan now us)
        (by_test (all (is_answered writes_nan) us) us)
    where
      by_test :
          (b : Bool) (us : List Task)
          → tasks_or_crash (if b then some us else none) ≡ (if b then tasks us else crashed)
      by_test true us = refl
      by_test false us = refl

  pub list_tasks_handler-lists :
      (now : ℕ) (p : Params) (n : ℕ) (q : Task → Bool) (ts : Table)
      → parse_int_param p.limit 50 ≡ some (pos n)
      → n < 2 ^ 63
      → (us : List Task) × (list_tasks_handler contains text writes_nan now p ts
          ≡ (if all (is_answered writes_nan) us then tasks us else crashed))
        × (length us
            ≡ min n (count (meets contains text (list_filters p.queue p.status p.task_name)) ts))
        × IsNewestFirst us
        × All (λ t. meets contains text (list_filters p.queue p.status p.task_name) t ≡ true) us
        × (count q us
            ≤ count
                (λ t. meets contains text (list_filters p.queue p.status p.task_name) t && q t)
                ts)
  unfolding list_tasks_handler
  list_tasks_handler-lists now p n q ts e small =
      let (few, newest, meet) = list_tasks_lem contains text p.queue p.status p.task_name n ts in
      (
        list_tasks contains text p.queue p.status p.task_name n ts,
        answers_tasks now p n ts e small,
        length-list_tasks contains text p.queue p.status p.task_name n ts,
        newest,
        meet,
        count-list_tasks contains text p.queue p.status p.task_name n q ts,
      )

  -- The failed tasks are a listing too.
  list_failed_tasks_handler-list_tasks_handler :
      (now : ℕ) (p : Params) (ts : Table)
      → list_failed_tasks_handler contains text writes_nan now p ts
        ≡ list_tasks_handler contains text writes_nan now
            (record p { status = some "failed"; task_name = none })
            ts
  unfolding list_failed_tasks_handler list_tasks_handler list_failed_tasks
  list_failed_tasks_handler-list_tasks_handler now p ts = refl

  same_filters :
      (p : Params) (t : Task)
      → p.args ≡ none
      → p.result ≡ none
      → p.error ≡ none
      → meets contains text (delete_filters contains text p) t
        ≡ meets contains text (list_filters p.queue p.status p.task_name) t
  unfolding meets
  same_filters p t a r e =
      rw
        (
          a,
          r,
          e,
          given p.queue (λ s. str_eq t.queue_name s),
          given p.status (λ s. str_eq (status_name t.status) s),
          given p.task_name (λ s. contains t.task_name s),
        )
        refl

  -- What delete_tasks_endpoint deletes by queue, status and task name are the tasks that
  -- list_tasks selects with the same parameters, if the limit is one that it accepts and is not
  -- too small for them: it answers their number; for any property `q`, the tasks selected and the
  -- tasks left have together as many with it as the table had; and list_tasks then answers with no
  -- task.
  pub list_tasks_handler-delete_tasks_handler :
      (now : ℕ) (p : Params) (n : ℕ) (q : Task → Bool) (ts : Table)
      → p.args ≡ none
      → p.result ≡ none
      → p.error ≡ none
      → parse_int_param p.limit 50 ≡ some (pos n)
      → n < 2 ^ 63
      → count (meets contains text (list_filters p.queue p.status p.task_name)) ts ≤ n
      → (us : List Task) × (list_tasks_handler contains text writes_nan now p ts
          ≡ (if all (is_answered writes_nan) us then tasks us else crashed))
        × ((delete_tasks_handler contains text p ts).0 ≡ deleted (length us))
        × (count q us + count q (delete_tasks_handler contains text p ts).1 ≡ count q ts)
        × (list_tasks_handler contains text writes_nan now p
              (delete_tasks_handler contains text p ts).1
            ≡ tasks [])
  unfolding delete_tasks_handler
  list_tasks_handler-delete_tasks_handler now p n q ts a r e l small few =
      let met = meets contains text (list_filters p.queue p.status p.task_name) in
      let doomed = meets contains text (delete_filters contains text p) in
      let us = list_tasks contains text p.queue p.status p.task_name n ts in
      let rest = (delete_tasks contains text (delete_filters contains text p) ts).1 in
      let (total, gone, left) =
        delete_tasks_lem contains text (delete_filters contains text p) q ts in
      let unmet =
        All-map (λ t. doomed t ≡ false) (λ t. met t ≡ false) rest
          (λ t h. sym (same_filters p t a r e) ∙ h) gone in
      let listed_q = list_tasks_complete contains text p.queue p.status p.task_name n q ts few in
      let (vs, listed, size, _, _, _) = list_tasks_handler-lists now p n (λ t. true) rest l small in
      let none_left = is_empty vs (
        size
        ∙ no_min n _ (
            count_unmet (meets contains text (list_filters p.queue p.status p.task_name)) rest
              unmet)) in
      (
        us,
        answers_tasks now p n ts l small,
        ap deleted (
            count_same doomed met ts (λ t. same_filters p t a r e)
            ∙ sym (
                length-list_tasks contains text p.queue p.status p.task_name n ts
                ∙ whole_min n _ few)),
        omega (
          arith,
          listed_q,
          left,
          count_same (λ t. not (doomed t) && q t) (λ t. not (met t) && q t) ts
              (λ t. ap (λ b. not b && q t) (same_filters p t a r e)),
          count_split met q ts,
        ),
        listed ∙ ap (λ ws. if all (is_answered writes_nan) ws then tasks ws else crashed) none_left,
      )
