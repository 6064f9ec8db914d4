-- ===== src/Worker/Examples.antt =====
-- Sample runs of the worker, on which the theorems are applied.
use lapinq.Prelude.{
  ℕ, zero, suc, ◌+◌, ◌≤◌, ◌≡◌, ◌≢◌, refl, String, false, ◌⊎◌, inr, none, some, [], ◌∷◌, arith,
  if◌then◌else◌, leb,
}
use lapinq.Prelude.Int.{pos}
use lapinq.Json.{Json}
use lapinq.Storage.Task.{Task, find_task, running}
use lapinq.Storage.Finish.{completed_row}
use lapinq.Storage.Retry.{manually_retried_row}
use lapinq.Storage.Claim.{claimed, claim_task, select_first, is_claimable, goes_before}
use lapinq.Storage.Examples.{task, three, free}
use lapinq.Scheduler.Cron.{is_space}
use lapinq.Worker.Execute.{
  Ran, retries, Called, gives, other_error, Exit, func_name, execute_task, after_last_dot,
}
use lapinq.Worker.Process.{
  timed_out, Answers, hook_for, process_task, Child, killed, exited, subprocess_execute, run_of,
  wait_for, strip, strip_start, strip_end,
}
use lapinq.Worker.Process.Settling.{
  answered, verdict, settled_row, settled_hook, process_task-settles,
  subprocess_execute-never_kills,
}
use lapinq.Worker.Process.ManualRetry.{process_task-loses_retry}
use lapinq.Worker.Loop.{
  testing, acquiring, claiming, Worker, Settings, start, Step, goes_on, acquires, takes, Reaches,
  begins, steps,
}
use lapinq.Worker.Loop.Permits.{held, permits-conserved, acquiring-wakes}

dotted : func_name "app.tasks.send" ≡ "send"
unfolding func_name after_last_dot
dotted = refl

stripped : strip " a b\n" ≡ "a b"
unfolding strip strip_start strip_end is_space
stripped = refl

abbrev job : Task
job = task 3 (pos 7) 8

abbrev timed : Answers String
timed = record { run = timed_out; now = 50; complete_error = none; fail_error = none }

abbrev encode : String → String ⊎ String
encode s = inr s

process_task-settles_example :
    (find_task 3 (process_task encode job timed three).table
      ≡ some (settled_row 50 (verdict encode timed_out) job))
    × ((settled_row 50 (verdict encode timed_out) job).status ≢ running)
    × ((process_task encode job timed three).hook
        ≡ hook_for job.webhook_url (settled_hook (verdict encode timed_out)))
    × ((process_task encode job timed three).escapes ≡ false)
process_task-settles_example = process_task-settles encode timed job job three refl refl refl

abbrev exit : Exit
exit = record { code = 0; stdout = "42\n"; stderr = "" }

abbrev slow : Child
slow = record { starting = 3; running = 100; exit = exit }

subprocess_execute-never_kills_example :
    (subprocess_execute 60 60 slow ≢ killed)
    × (wait_for 60 slow ≡ (if leb 60 (3 + 100) then timed_out else run_of (exited exit)))
subprocess_execute-never_kills_example = subprocess_execute-never_kills 60 slow

abbrev call : String → String → Json → Json → Ran
call path name args kwargs = record {
  run = retries (pos 30) none;
  printed = "trying\n";
  logged = "";
}

process_task-loses_retry_example :
    find_task 3
      (process_task
        (λ s. inr s)
        job
        (answered
          (wait_for 60 (record {
            starting = 1;
            running = 2;
            exit = (execute_task call "not found" 40 3 three).0;
          }))
          41)
        (execute_task call "not found" 40 3 three).1).table
    ≡ some (
        completed_row 41
          (some (strip "trying\n"))
          (manually_retried_row 40 "manual retry" (pos 30) job))
process_task-loses_retry_example =
    process_task-loses_retry call "not found" (λ s. s) 40 41 60 1 2 job job three (pos 30) none refl
      refl (omega arith)

abbrev raises_first : ℕ → Called ℕ
raises_first zero = other_error "boom"
raises_first (suc n) = gives 5

abbrev settings : Settings
settings = record {
  worker_id = "w";
  concurrency = 1;
  poll_interval = 100_000;
  max_idle_backoff = 5_000_000;
}

-- The worker has claimed task 3 and waits for a permit.
abbrev took : Worker
took = record {
  phase = testing;
  permits = 0;
  jobs = claimed "w" 20 job ∷ [];
  idle_backoff = 100_000;
  shutdown = false;
  table = task 1 (pos 0) 5 ∷ task 2 (pos 7) 9 ∷ claimed "w" 20 job ∷ [];
}

abbrev waiting : Worker
waiting = record took { phase = acquiring }

Reaches-waiting : Reaches settings waiting
unfolding claim_task select_first is_claimable goes_before
Reaches-waiting =
    let begun = start settings three in
    let ready : Worker = record begun { phase = acquiring } in
    let armed : Worker = record begun { phase = claiming; permits = 0 } in
    steps took waiting
      (steps armed took
        (steps ready armed (steps begun ready (begins three) (goes_on begun refl refl))
          (acquires ready 0 refl refl))
        (takes armed 20 free (claimed "w" 20 job) took.table refl refl))
      (goes_on took refl refl)

permits-conserved_example :
    (0 + held acquiring + 1 ≡ 1) × (1 ≤ 1) × (100_000 ≤ 100_000) × (100_000 ≤ 5_000_000)
permits-conserved_example = permits-conserved settings waiting (omega arith) Reaches-waiting

acquiring-wakes_example :
    (v : Worker) × (u : Worker) × Step settings waiting v × Step settings v u × (u.phase ≡ claiming)
acquiring-wakes_example = acquiring-wakes settings waiting (omega arith) Reaches-waiting refl refl
