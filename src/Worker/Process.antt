-- ===== src/Worker/Process.antt =====
-- process_task and subprocess_execute of python/lapinq/worker.py.
pub mod Settling
pub mod ManualRetry
pub mod Locality
use Prim.Native.Char.{Char, code}
use Prim.Native.String
use lapinq.Prelude.{
  ℕ, ◌+◌, ◌≡◌, String, Bool, true, false, ◌&&◌, ◌⊎◌, inl, inr, Option, none, some, List, [], ◌∷◌,
  ◌==◌, if◌then◌else◌, leb, ltb,
}
use lapinq.Storage.Task.{Task, Table}
use lapinq.Storage.Finish.{complete_task}
use lapinq.Storage.Retry.{fail_task}
use lapinq.Scheduler.Cron.{is_space}
use lapinq.Worker.Execute.{Exit}

-- How wait_for(execute_fn(task_data)) ends; `returned none` is the result None, and `raised` has
-- str(e).
pub data Run {ℓ} (A : Type ℓ) : Type ℓ where
  returned : Option A → Run A
  timed_out : Run A
  raised : String → Run A

-- An error of a statement; the statement's own time limit is a TimeoutError.
pub data StatementError : Type 0 where
  timeout : StatementError
  other : String → StatementError

-- The run, now() in the statement after it, and the errors of complete_task and of fail_task.
pub record Answers {ℓ} (A : Type ℓ) : Type ℓ where
  pub run : Run A
  pub now : ℕ
  pub complete_error : Option StatementError
  pub fail_error : Option StatementError

-- The payload of _fire_webhook, and what a call of process_task does: the table, the web hook that it
-- fires, and whether an exception leaves it. The permit is released in each case.
pub data Hook : Type 0 where
  hook_completed : (url : String) → Option String → Hook
  hook_failed : (url : String) → String → Hook

pub record Report : Type 0 where
  pub table : Table
  pub hook : Option Hook
  pub escapes : Bool

-- if webhook_url
abbrev pub hook_for : Option String → (String → Hook) → Option Hook
hook_for none make = none
hook_for (some String.[]) make = none
hook_for (some url) make = some (make url)

-- The branch `except TimeoutError`.
pub on_timeout : ℕ → Option StatementError → Task → Table → Report
on_timeout now fail_error t ts = elim fail_error [
  | none ↦ record {
    table = fail_task now t.id (some "timed out") ts;
    hook = hook_for t.webhook_url (λ url. hook_failed url "timed out");
    escapes = false;
  }
  | some e ↦ record { table = ts; hook = none; escapes = true }
]

-- The branch `except Exception`, which suppresses an error of fail_task.
pub on_error : ℕ → Option StatementError → Task → String → Table → Report
on_error now fail_error t error ts = record {
  table = elim fail_error [ none ↦ fail_task now t.id (some error) ts | some e ↦ ts ];
  hook = hook_for t.webhook_url (λ url. hook_failed url error);
  escapes = false;
}

-- The rest of the `try` branch, once the result is a text or None.
pub on_result {ℓ} : {A : Type ℓ} → Answers A → Task → Option String → Table → Report
unfolding on_timeout on_error
on_result a t result ts = elim a.complete_error [
  | none ↦ record {
    table = complete_task a.now t.id result ts;
    hook = hook_for t.webhook_url (λ url. hook_completed url result);
    escapes = false;
  }
  | some timeout ↦ on_timeout a.now a.fail_error t ts
  | some (other error) ↦ on_error a.now a.fail_error t error ts
]

-- `dumps` is json.dumps, with the text of its exception.
pub process_task {ℓ} : {A : Type ℓ} → (A → String ⊎ String) → Task → Answers A → Table → Report
unfolding on_timeout on_error on_result
process_task dumps t a ts = elim a.run [
  | returned none ↦ on_result a t none ts
  | returned (some v) ↦ elim (dumps v) [
    | inl error ↦ on_error a.now a.fail_error t error ts
    | inr text ↦ on_result a t (some text) ts
  ]
  | timed_out ↦ on_timeout a.now a.fail_error t ts
  | raised error ↦ on_error a.now a.fail_error t error ts
]

-- text.strip()
unfoldable pub strip_start : String → String
unfolding is_space
strip_start String.[] = String.[]
strip_start (String.◌∷◌ c s) =
    let rest = strip_start s in if is_space (code c) then rest else String.◌∷◌ c s

abbrev pub cons_kept : Char → String → String
cons_kept c String.[] = if is_space (code c) then String.[] else String.◌∷◌ c String.[]
cons_kept c rest = String.◌∷◌ c rest

unfoldable pub strip_end : String → String
strip_end String.[] = String.[]
strip_end (String.◌∷◌ c s) = cons_kept c (strip_end s)

unfoldable pub strip : String → String
unfolding strip_start strip_end
strip s = strip_end (strip_start s)

-- A child process: how long it takes to start, how long it then runs, and how it exits.
pub record Child : Type 0 where
  pub starting : ℕ
  pub running : ℕ
  pub exit : Exit

-- How subprocess_execute ends, when it is cancelled at an instant counted from its start.
pub data Subprocess : Type 0 where
  cancelled killed : Subprocess
  exited : Exit → Subprocess

pub subprocess_execute : ℕ → ℕ → Child → Subprocess
subprocess_execute task_timeout cancelled_at child =
    if leb task_timeout child.running
    then if leb cancelled_at (child.starting + task_timeout) then cancelled else killed
    else if leb cancelled_at (child.starting + child.running)
    then cancelled
    else exited child.exit

pub run_of : Subprocess → Run String
unfolding strip
run_of cancelled = timed_out
run_of killed = timed_out
run_of (exited exit) =
    if exit.code == 0 then returned (some (strip exit.stdout)) else raised (strip exit.stderr)

-- asyncio.wait_for(execute_fn(task_data), timeout=task_timeout), whose timer starts first.
pub wait_for : ℕ → Child → Run String
unfolding subprocess_execute run_of
wait_for task_timeout child = run_of (subprocess_execute task_timeout task_timeout child)
