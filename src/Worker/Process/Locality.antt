-- ===== src/Worker/Process/Locality.antt =====
-- process_task of python/lapinq/worker.py writes to the row of its task only.
use lapinq.Prelude.{ℕ, ◌≡◌, refl, String, ◌⊎◌, inl, inr, Option, none, some}
use lapinq.Storage.Task.{Task, Table}
use lapinq.Storage.Retry.Locality.{IsLocal, unchanged, fail_task-IsLocal, complete_task-IsLocal}
use lapinq.Worker.Process.{
  Run, returned, timed_out, raised, Answers, timeout, other, StatementError, on_timeout, on_error,
  on_result, process_task,
}

on_timeout-IsLocal :
    (now : ℕ) (e : Option StatementError) (t : Task) (ts : Table)
    → IsLocal t.id ts (on_timeout now e t ts).table
unfolding on_timeout
on_timeout-IsLocal now none t ts = fail_task-IsLocal now t.id _ ts
on_timeout-IsLocal now (some e) t ts = unchanged t.id ts

on_error-IsLocal :
    (now : ℕ) (e : Option StatementError) (t : Task) (error : String) (ts : Table)
    → IsLocal t.id ts (on_error now e t error ts).table
unfolding on_error
on_error-IsLocal now none t error ts = fail_task-IsLocal now t.id _ ts
on_error-IsLocal now (some e) t error ts = unchanged t.id ts

on_result-IsLocal {ℓ} :
    {A : Type ℓ} (a : Answers A) (t : Task) (result : Option String) (ts : Table)
    → IsLocal t.id ts (on_result a t result ts).table
unfolding on_result
on_result-IsLocal a t result ts = go a.complete_error
  where
    go :
        (c : Option StatementError)
        → IsLocal t.id ts (on_result (record a { complete_error = c }) t result ts).table
    go none = complete_task-IsLocal a.now t.id result ts
    go (some timeout) = on_timeout-IsLocal a.now a.fail_error t ts
    go (some (other error)) = on_error-IsLocal a.now a.fail_error t error ts

-- process_task writes to no row but that of its task.
pub process_task-IsLocal {ℓ} :
    {A : Type ℓ} (dumps : A → String ⊎ String) (t : Task) (a : Answers A) (ts : Table)
    → IsLocal t.id ts (process_task dumps t a ts).table
unfolding process_task
process_task-IsLocal {A = A} dumps t a ts = go a.run
  where
    go : (r : Run A) → IsLocal t.id ts (process_task dumps t (record a { run = r }) ts).table
    go (returned none) = on_result-IsLocal a t none ts
    go (returned (some v)) = dumped (dumps v) refl
      where
        dumped :
            (d : String ⊎ String)
            → dumps v ≡ d
            → IsLocal t.id ts (process_task dumps t (record a { run = returned (some v) }) ts).table
        dumped (inl error) e = rw (e, process_task) (on_error-IsLocal a.now a.fail_error t error ts)
        dumped (inr text) e = rw (e, process_task) (on_result-IsLocal a t (some text) ts)
    go timed_out = on_timeout-IsLocal a.now a.fail_error t ts
    go (raised error) = on_error-IsLocal a.now a.fail_error t error ts
