-- ===== src/Storage/Enqueue.antt =====
-- Storage.enqueue and Storage.enqueue_batch of python/lapinq/storage.py. The identifier that
-- gen_random_uuid() draws and the instant of now() are arguments.
use lapinq.Prelude.{
  ◌≡◌, refl, ℕ, String, Bool, true, false, Option, none, some, [], ◌∷◌, ◌++◌, if◌then◌else◌,
}
use lapinq.Prelude.Int.{ℤ, is_zero}
use lapinq.Json.{Json, arr, nil, obj, end, or_else}
use lapinq.Storage.Task.{Task, Table, pending, find_task}

pub data Error : Type 0 where
  unique_violation not_null_violation : Error

pub data Result {ℓ} (A : Type ℓ) : Type ℓ where
  ok : A → Result A
  raise : Error → Result A

infixl 5 ◌>>=◌
abbrev pub ◌>>=◌ {ℓ κ} : {A : Type ℓ} {B : Type κ} → Result A → (A → Result B) → Result B
ok a >>= f = f a
raise e >>= f = raise e

-- The arguments of `enqueue`.
pub record Request : Type 0 where
  pub task_name : String
  pub queue_name : String
  pub module_path : String
  pub args : Json
  pub kwargs : Json
  pub scheduled_at : Option ℕ
  pub max_retries : ℤ
  pub priority : ℤ
  pub ttl_seconds : Option ℤ
  pub metadata : Json
  pub retry_delay : Option ℤ
  pub retry_backoff : Option Bool
  pub webhook_url : Option String

-- COALESCE(a, b)
abbrev pub coalesce {ℓ} : {A : Type ℓ} → Option A → A → A
coalesce none d = d
coalesce (some a) d = a

-- ttl_seconds == 0
abbrev pub is_zero_ttl : Option ℤ → Bool
is_zero_ttl none = false
is_zero_ttl (some t) = is_zero t

-- The row of the INSERT statement, with the defaults of the other columns.
unfoldable pub new_row : ℕ → ℕ → Request → Task
new_row id now r = record {
  id = id;
  queue_name = r.queue_name;
  task_name = r.task_name;
  module_path = r.module_path;
  args = or_else r.args (arr nil);
  kwargs = or_else r.kwargs (obj end);
  status = pending;
  result = none;
  error = none;
  attempts = 0;
  max_retries = r.max_retries;
  priority = r.priority;
  created_at = now;
  scheduled_at = coalesce r.scheduled_at now;
  started_at = none;
  completed_at = none;
  last_heartbeat = none;
  worker_id = none;
  ttl_seconds = r.ttl_seconds;
  metadata = or_else r.metadata (obj end);
  progress = none;
  progress_message = none;
  retry_delay = r.retry_delay;
  retry_backoff = some (coalesce r.retry_backoff true);
  webhook_url = r.webhook_url;
}

-- INSERT ... RETURNING id, under the primary key.
unfoldable pub insert : Task → Table → Result ℕ × Table
insert row ts = elim (find_task row.id ts) [
  | none ↦ (ok row.id, ts ++ row ∷ [])
  | some old ↦ (raise unique_violation, ts)
]

-- row["id"]
abbrev pub returning : Result ℕ × Table → Result (Option ℕ) × Table
returning (ok id, ts) = (ok (some id), ts)
returning (raise e, ts) = (raise e, ts)

pub table-returning : (p : Result ℕ × Table) → (returning p).1 ≡ p.1
table-returning (ok id, ts) = refl
table-returning (raise e, ts) = refl

unfoldable pub enqueue : ℕ → ℕ → Request → Table → Result (Option ℕ) × Table
unfolding new_row insert
enqueue id now r ts =
    if is_zero_ttl r.ttl_seconds then (ok none, ts) else returning (insert (new_row id now r) ts)
