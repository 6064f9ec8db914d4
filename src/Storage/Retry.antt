-- ===== src/Storage/Retry.antt =====
-- Failure and retry in python/lapinq/storage.py: _retry_backoff_seconds, fail_task,
-- recover_stale_tasks, requeue_task; and the UPDATE of a manual retry in python/lapinq/execute.py.
pub mod Backoff
pub mod Attempts
pub mod Recovery
pub mod Locality
use lapinq.Prelude.{
  ℕ, String, Bool, true, false, not, ◌&&◌, Option, none, some, List, [], ◌∷◌, map, ◌+◌, ◌-◌, ◌*◌,
  leb, ltb, ◌==◌, if◌then◌else◌,
}
use lapinq.Prelude.Lists.{length, get_or, count, filter}
use lapinq.Prelude.Int.{ℤ, pos, ltb_ℤ, shift}
use lapinq.Prelude.Rows.{update_where}
use lapinq.Storage.Task.{Task, Table, pending, running, failed, same_status, find_task, second}

-- RETRY_BACKOFF_SECONDS
abbrev pub retry_backoff_table : List ℕ
retry_backoff_table = 10 ∷ 30 ∷ 60 ∷ 300 ∷ 600 ∷ []

pub retry_backoff_seconds : ℕ → ℕ
retry_backoff_seconds attempt =
    if leb attempt 0
    then 0
    else if ltb (length retry_backoff_table) attempt
    then get_or retry_backoff_table (length retry_backoff_table - 1) 0
    else get_or retry_backoff_table (attempt - 1) 0

abbrev is_true : Option Bool → Bool
is_true (some true) = true
is_true _ = false

abbrev or_ten_seconds : Option ℤ → ℤ
or_ten_seconds none = pos (10 * second)
or_ten_seconds (some delay) = delay

-- The delay before the next attempt, in microseconds.
pub backoff : Task → ℕ → ℤ
unfolding retry_backoff_seconds
backoff row attempts =
    if is_true row.retry_backoff
    then pos (retry_backoff_seconds attempts * second)
    else or_ten_seconds row.retry_delay

abbrev pub retried_row : ℕ → ℕ → Option String → ℤ → Task → Task
retried_row now attempts error delay t = record t {
  status = pending;
  attempts = attempts;
  error = error;
  scheduled_at = shift now delay;
  started_at = none;
  worker_id = none;
}

abbrev pub failed_row : ℕ → ℕ → Option String → Task → Task
failed_row now attempts error t = record t {
  status = failed;
  attempts = attempts;
  error = error;
  completed_at = some now;
}

-- What the second statement of fail_task sets, from the row `read` that the first one read.
unfoldable pub failure_row : ℕ → Option String → Task → Task → Task
unfolding backoff
failure_row now error read t =
    let attempts = read.attempts + 1 in
    if ltb_ℤ (pos attempts) read.max_retries
    then retried_row now attempts error (backoff read attempts) t
    else failed_row now attempts error t

unfoldable pub fail_write : ℕ → ℕ → Option String → Task → Table → Table
unfolding failure_row
fail_write now task_id error read = update_where (λ t. t.id == task_id) (failure_row now error read)

pub fail_task : ℕ → ℕ → Option String → Table → Table
unfolding fail_write
fail_task now task_id error ts = elim (find_task task_id ts) [
  | none ↦ ts
  | some row ↦ fail_write now task_id error row ts
]

-- status = 'running' AND started_at < now() - max_running_seconds
abbrev started_before : ℕ → Option ℕ → Bool
started_before limit none = false
started_before limit (some t) = ltb t limit

pub is_stale : ℕ → ℕ → Task → Bool
is_stale now max_running_seconds t =
    same_status t.status running && started_before (now - max_running_seconds * second) t.started_at

abbrev pub recovered_row : Task → Task
recovered_row t = record t {
  status = pending;
  started_at = none;
  worker_id = none;
  attempts = t.attempts + 1;
  error = some "recovered after timeout";
}

-- The identifiers that RETURNING gives; rows that another transaction has locked are skipped.
unfoldable pub recover_stale_tasks : ℕ → ℕ → (ℕ → Bool) → Table → List ℕ × Table
unfolding is_stale
recover_stale_tasks now max_running_seconds locked ts =
    let stale : Task → Bool = λ t. is_stale now max_running_seconds t && not (locked t.id) in
    (map (λ t. t.id) (filter stale ts), update_where stale recovered_row ts)

abbrev pub is_requeueable : ℕ → Task → Bool
is_requeueable task_id t = t.id == task_id && same_status t.status failed

abbrev pub requeued_row : ℕ → Task → Task
requeued_row now t = record t {
  status = pending;
  attempts = 0;
  error = none;
  scheduled_at = now;
  started_at = none;
  completed_at = none;
  worker_id = none;
}

unfoldable pub requeue_task : ℕ → ℕ → Table → Bool × Table
requeue_task now task_id ts = (
  not (count (is_requeueable task_id) ts == 0),
  update_where (is_requeueable task_id) (requeued_row now) ts,
)

-- The UPDATE in the `except RetryError` branch of `execute_task`.
abbrev pub manually_retried_row : ℕ → String → ℤ → Task → Task
manually_retried_row now error countdown t = record t {
  status = pending;
  attempts = t.attempts + 1;
  error = some error;
  scheduled_at = shift now countdown;
  started_at = none;
  worker_id = none;
}

unfoldable pub manual_retry : ℕ → ℕ → String → ℤ → Table → Table
manual_retry now task_id error countdown =
    update_where (λ t. t.id == task_id) (manually_retried_row now error countdown)
