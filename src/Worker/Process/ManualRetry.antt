-- ===== src/Worker/Process/ManualRetry.antt =====
-- A RetryError in a task that runs in a process of its own, from execute.py through worker.py.
use lapinq.Prelude.{ℕ, ◌+◌, ◌<◌, ◌≡◌, refl, String, false, inr, Option, some, arith, ◌==◌, leb}
use lapinq.Prelude.Int.{ℤ}
use lapinq.Prelude.Rows.{find-update_where, find-key}
use lapinq.Json.{Json}
use lapinq.Storage.Task.{Task, Table, find_task}
use lapinq.Storage.Finish.{completed_row}
use lapinq.Storage.Retry.{manual_retry, manually_retried_row}
use lapinq.Worker.Execute.{retries, Ran, func_name, execute_task, leave, retry_message, exit_of}
use lapinq.Worker.Process.{process_task, strip, Child, on_result, run_of, wait_for}
use lapinq.Worker.Process.Settling.{
  answered, find_task-complete_task, subprocess_execute-never_kills,
}

find_task-manual_retry :
    (now task_id : ℕ) (error : String) (countdown : ℤ) (ts : Table) (t : Task)
    → find_task task_id ts ≡ some t
    → find_task task_id (manual_retry now task_id error countdown ts)
      ≡ some (manually_retried_row now error countdown t)
unfolding manual_retry
find_task-manual_retry now task_id error countdown ts t e = ground (
  arith,
  find-update_where (λ u. u.id) task_id (λ u. u.id == task_id)
      (manually_retried_row now error countdown) ts (λ u. refl),
  find-key (λ u. u.id) task_id ts t e,
)

execute_task-retries :
    (call : String → String → Json → Json → Ran) (not_found : String) (now task_id : ℕ) (ts : Table)
    (t : Task) (countdown : ℤ) (message : Option String)
    → find_task task_id ts ≡ some t
    → (call t.module_path (func_name t.task_name) t.args t.kwargs).run ≡ retries countdown message
    → execute_task call not_found now task_id ts ≡ (
      exit_of 0
          (call t.module_path (func_name t.task_name) t.args t.kwargs).printed
          (call t.module_path (func_name t.task_name) t.args t.kwargs),
      manual_retry now task_id (retry_message message) countdown ts,
    )
unfolding execute_task leave
execute_task-retries call not_found now task_id ts t countdown message e r =
    rw (e, execute_task, r) refl

-- A manual retry is lost: when the function of a task that the worker runs in a child process
-- raises RetryError and the child exits before the time-out, then, although execute_task has put
-- the task back to pending, with one attempt more and a later instant, process_task completes it,
-- with what the function printed as its result.
pub process_task-loses_retry :
    (call : String → String → Json → Json → Ran) (not_found : String) (quote : String → String)
    (now later task_timeout starting running : ℕ) (job t : Task) (ts : Table) (countdown : ℤ)
    (message : Option String)
    → find_task job.id ts ≡ some t
    → (call t.module_path (func_name t.task_name) t.args t.kwargs).run ≡ retries countdown message
    → starting + running < task_timeout
    → find_task job.id
        (process_task
          (λ s. inr (quote s))
          job
          (answered
            (wait_for task_timeout (record {
              starting = starting;
              running = running;
              exit = (execute_task call not_found now job.id ts).0;
            }))
            later)
          (execute_task call not_found now job.id ts).1).table
      ≡ some (
          completed_row later
            (some
              (quote (strip (call t.module_path (func_name t.task_name) t.args t.kwargs).printed)))
            (manually_retried_row now (retry_message message) countdown t))
unfolding process_task on_result answered run_of
process_task-loses_retry call not_found quote now later task_timeout starting running job t ts
      countdown message e r quick =
    let ran : Ran = call t.module_path (func_name t.task_name) t.args t.kwargs in
    let child : Child = record {
      starting = starting;
      running = running;
      exit = exit_of 0 ran.printed ran;
    } in
    rw
      (
        execute_task-retries call not_found now job.id ts t countdown message e r,
        (subprocess_execute-never_kills task_timeout child).1,
        (let f : leb task_timeout (starting + running) ≡ false = ground arith in f),
      )
      (find_task-complete_task later job.id (some (quote (strip ran.printed)))
        (manual_retry now job.id (retry_message message) countdown ts)
        (manually_retried_row now (retry_message message) countdown t)
        (find_task-manual_retry now job.id (retry_message message) countdown ts t e))
