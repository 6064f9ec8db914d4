-- ===== src/Worker/Process/Settling.antt =====
-- What process_task makes of each end of a run, and what becomes of a manual retry and of a child process.
use lapinq.Prelude.{
  ℕ, ◌+◌, ◌≡◌, ◌≢◌, refl, ap, ◌∙◌, String, false, ◌⊎◌, inl, inr, Option, none, some, arith, ◌==◌,
  if◌then◌else◌, leb,
}
use lapinq.Prelude.Rows.{find-update_where, find-key}
use lapinq.Storage.Task.{Task, Table, find_task, running}
use lapinq.Storage.Finish.{complete_task, completed_row}
use lapinq.Storage.Retry.{fail_task, failure_row}
use lapinq.Storage.Retry.Backoff.{find_task-fail_task}
use lapinq.Worker.Process.{
  Run, returned, timed_out, raised, Answers, Hook, hook_completed, hook_failed, hook_for, Report,
  on_timeout, on_error, on_result, process_task, Child, killed, exited, subprocess_execute, run_of,
  wait_for,
}

-- The result to store, or the error.
abbrev pub verdict {ℓ} : {A : Type ℓ} → (A → String ⊎ String) → Run A → String ⊎ Option String
verdict dumps (returned none) = inr none
verdict dumps (returned (some v)) = elim (dumps v) [ inl e ↦ inl e | inr text ↦ inr (some text) ]
verdict dumps timed_out = inl "timed out"
verdict dumps (raised e) = inl e

-- The row and the web hook that a verdict asks for.
abbrev pub settled_row : ℕ → String ⊎ Option String → Task → Task
settled_row now (inl e) t = failure_row now (some e) t t
settled_row now (inr result) t = completed_row now result t

abbrev pub settled_hook : String ⊎ Option String → String → Hook
settled_hook (inl e) url = hook_failed url e
settled_hook (inr result) url = hook_completed url result

pub find_task-complete_task :
    (now task_id : ℕ) (result : Option String) (ts : Table) (t : Task)
    → find_task task_id ts ≡ some t
    → find_task task_id (complete_task now task_id result ts) ≡ some (completed_row now result t)
unfolding complete_task
find_task-complete_task now task_id result ts t e = ground (
  arith,
  find-update_where (λ u. u.id) task_id (λ u. u.id == task_id) (completed_row now result) ts
      (λ u. refl),
  find-key (λ u. u.id) task_id ts t e,
)

not_running :
    (now : ℕ) (v : String ⊎ Option String) (t : Task) → (settled_row now v t).status ≢ running
unfolding failure_row
not_running now (inl e) t = ground arith
not_running now (inr r) t = ground arith

-- What process_task does by the verdict, when the database answers.
abbrev report : ℕ → Task → Table → String ⊎ Option String → Report
report now job ts (inl e) = record {
  table = fail_task now job.id (some e) ts;
  hook = hook_for job.webhook_url (λ url. hook_failed url e);
  escapes = false;
}
report now job ts (inr result) = record {
  table = complete_task now job.id result ts;
  hook = hook_for job.webhook_url (λ url. hook_completed url result);
  escapes = false;
}

unfoldable pub answered {ℓ} : {A : Type ℓ} → Run A → ℕ → Answers A
answered run now = record { run = run; now = now; complete_error = none; fail_error = none }

process_task-report {ℓ} :
    {A : Type ℓ} (dumps : A → String ⊎ String) (run : Run A) (now : ℕ) (job : Task) (ts : Table)
    → process_task dumps job (answered run now) ts ≡ report now job ts (verdict dumps run)
unfolding process_task on_timeout on_error on_result answered
process_task-report dumps (returned none) now job ts = refl
process_task-report dumps (returned (some v)) now job ts = dumped (dumps v)
  where
    dumped :
        (d : String ⊎ String)
        → (elim d [
          | inl error ↦ on_error now none job error ts
          | inr text ↦ on_result (answered (returned (some v)) now) job (some text) ts
        ])
          ≡ report now job ts (elim d [ inl e ↦ inl e | inr text ↦ inr (some text) ])
    dumped (inl e) = refl
    dumped (inr text) = refl
process_task-report dumps timed_out now job ts = refl
process_task-report dumps (raised e) now job ts = refl

same_answers {ℓ} :
    {A : Type ℓ} (a : Answers A)
    → a.complete_error ≡ none
    → a.fail_error ≡ none
    → a ≡ answered a.run a.now
unfolding answered
same_answers a c f =
    λ i. record { run = a.run; now = a.now; complete_error = c i; fail_error = f i }

report_lem :
    (now : ℕ) (job row : Task) (ts : Table) (v : String ⊎ Option String)
    → find_task job.id ts ≡ some row
    → (find_task job.id (report now job ts v).table ≡ some (settled_row now v row))
      × ((report now job ts v).hook ≡ hook_for job.webhook_url (settled_hook v))
      × ((report now job ts v).escapes ≡ false)
report_lem now job row ts (inl e) h =
    (find_task-fail_task now job.id job.id (some e) ts row h ∙ ground arith, refl, refl)
report_lem now job row ts (inr r) h = (find_task-complete_task now job.id r ts row h, refl, refl)

-- If the table has the task and the two statements go through, process_task completes the task
-- with the result as JSON text, or, on an exception, a time-out, or a result that is no JSON,
-- fails it as fail_task does; the task is not left running; the web hook says the same; and no
-- exception leaves process_task.
pub process_task-settles {ℓ} :
    {A : Type ℓ} (dumps : A → String ⊎ String) (a : Answers A) (job row : Task) (ts : Table)
    → find_task job.id ts ≡ some row
    → a.complete_error ≡ none
    → a.fail_error ≡ none
    → (find_task job.id (process_task dumps job a ts).table
        ≡ some (settled_row a.now (verdict dumps a.run) row))
      × ((settled_row a.now (verdict dumps a.run) row).status ≢ running)
      × ((process_task dumps job a ts).hook
          ≡ hook_for job.webhook_url (settled_hook (verdict dumps a.run)))
      × ((process_task dumps job a ts).escapes ≡ false)
process_task-settles dumps a job row ts h c f =
    let same : process_task dumps job a ts ≡ report a.now job ts (verdict dumps a.run) =
      ap (λ b. process_task dumps job b ts) (same_answers a c f)
      ∙ process_task-report dumps a.run a.now job ts in
    let (found, hook, quiet) = report_lem a.now job row ts (verdict dumps a.run) h in
    (
      ap (λ r. find_task job.id r.table) same ∙ found,
      not_running a.now (verdict dumps a.run) row,
      ap (λ r. r.hook) same ∙ hook,
      ap (λ r. r.escapes) same ∙ quiet,
    )

-- A child process that overruns the time-out is never killed: the timer of the worker starts first
-- and ends first, by a cancellation; the run counts as timed out exactly if the child, its start
-- included, takes at least the time-out, and otherwise is what its exit says.
pub subprocess_execute-never_kills :
    (task_timeout : ℕ) (child : Child)
    → (subprocess_execute task_timeout task_timeout child ≢ killed)
      × (wait_for task_timeout child ≡ (
          if leb task_timeout (child.starting + child.running)
          then timed_out
          else run_of (exited child.exit)))
unfolding subprocess_execute wait_for run_of
subprocess_execute-never_kills task_timeout child = (ground arith, ground arith)
