-- ===== src/Storage/Task.antt =====
-- The table `lapinq_tasks` of python/lapinq/storage.py (SQL_SCHEMA, MIGRATIONS).
-- Instants are microseconds from a fixed epoch and lengths of time whole microseconds.
use lapinq.Prelude.{ℕ, String, Bool, true, false, Option, List}
use lapinq.Prelude.Int.{ℤ}
use lapinq.Prelude.Rows.{find}
use lapinq.Json.{Json}

-- CHECK (status IN (...))
pub data Status : Type 0 where
  pending running completed failed cancelled expired : Status

-- a = b on the text of two statuses
abbrev pub same_status : Status → Status → Bool
same_status pending pending = true
same_status running running = true
same_status completed completed = true
same_status failed failed = true
same_status cancelled cancelled = true
same_status expired expired = true
same_status _ _ = false

-- the text in the column
abbrev pub status_name : Status → String
status_name pending = "pending"
status_name running = "running"
status_name completed = "completed"
status_name failed = "failed"
status_name cancelled = "cancelled"
status_name expired = "expired"

-- status IN ('completed', 'failed', 'cancelled', 'expired')
abbrev pub is_final : Status → Bool
is_final pending = false
is_final running = false
is_final _ = true

-- A DOUBLE PRECISION: a number in millionths, or one of the values that are none.
pub data Double : Type 0 where
  number : ℤ → Double
  nan infinity minus_infinity : Double

pub record Task : Type 0 where
  pub id : ℕ
  pub queue_name : String
  pub task_name : String
  pub module_path : String
  pub args : Json
  pub kwargs : Json
  pub status : Status
  pub result : Option String
  pub error : Option String
  pub attempts : ℕ
  pub max_retries : ℤ
  pub priority : ℤ
  pub created_at : ℕ
  pub scheduled_at : ℕ
  pub started_at : Option ℕ
  pub completed_at : Option ℕ
  pub last_heartbeat : Option ℕ
  pub worker_id : Option String
  pub ttl_seconds : Option ℤ
  pub metadata : Json
  pub progress : Option Double
  pub progress_message : Option String
  pub retry_delay : Option ℤ
  pub retry_backoff : Option Bool
  pub webhook_url : Option String

-- The rows in the order in which they were inserted.
abbrev pub Table : Type 0
Table = List Task

-- SELECT * FROM lapinq_tasks WHERE id = $1
abbrev pub find_task : ℕ → Table → Option Task
find_task = find (λ t. t.id)

-- one second, in microseconds
abbrev pub second : ℕ
second = 1_000_000
