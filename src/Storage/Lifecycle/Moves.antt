-- ===== src/Storage/Lifecycle/Moves.antt =====
-- The moves of a task's status that each kind of statement of python/lapinq/storage.py may make, as an
-- independent table, and what becomes of a row.
use lapinq.Prelude.{
  ℕ, String, ◌≡◌, refl, Bool, true, false, Option, none, some, arith, if◌then◌else◌,
}
use lapinq.Prelude.Int.{ℤ}
use lapinq.Prelude.Rows.{find-update_where, update_where}
use lapinq.Storage.Task.{
  Status, pending, running, completed, failed, cancelled, expired, Task, Table, find_task,
}
use lapinq.Storage.Queries.{Filters}
use lapinq.Storage.Lifecycle.{
  Op, claims, completes, fails, cancels, recovers, requeues, retries, cleans_up, deletes,
}

-- The moves of the status that a statement may make.
pub data Move : Op → Status → Status → Type 0 where
  stay : {op : Op} {a : Status} → Move op a a
  start : {w : String} {now : ℕ} {locked : ℕ → Bool} → Move (claims w now locked) pending running
  complete :
      {now i : ℕ} {result : Option String} {a : Status} → Move (completes now i result) a completed
  retry :
      {now i : ℕ} {error : Option String} {row : Task} {a : Status}
      → Move (fails now i error row) a pending
  give_up :
      {now i : ℕ} {error : Option String} {row : Task} {a : Status}
      → Move (fails now i error row) a failed
  cancel : {now i : ℕ} → Move (cancels now i) pending cancelled
  recover :
      {now seconds : ℕ} {locked : ℕ → Bool} → Move (recovers now seconds locked) running pending
  requeue : {now i : ℕ} → Move (requeues now i) failed pending
  retry_by_hand :
      {now i : ℕ} {error : String} {countdown : ℤ} {a : Status}
      → Move (retries now i error countdown) a pending
  expire_pending : {now : ℕ} → Move (cleans_up now) pending expired
  expire_running : {now : ℕ} → Move (cleans_up now) running expired

-- The columns that say what the task is.
pub record IsSameJob (t u : Task) : Type 0 where
  pub id : u.id ≡ t.id
  pub queue_name : u.queue_name ≡ t.queue_name
  pub task_name : u.task_name ≡ t.task_name
  pub module_path : u.module_path ≡ t.module_path
  pub args : u.args ≡ t.args
  pub kwargs : u.kwargs ≡ t.kwargs
  pub max_retries : u.max_retries ≡ t.max_retries
  pub priority : u.priority ≡ t.priority
  pub created_at : u.created_at ≡ t.created_at
  pub ttl_seconds : u.ttl_seconds ≡ t.ttl_seconds
  pub webhook_url : u.webhook_url ≡ t.webhook_url

-- What becomes of a row: it is there with an allowed move, or a delete_tasks removed it.
pub data Fate (op : Op) (t : Task) : Option Task → Type 0 where
  kept : (u : Task) → Move op t.status u.status → IsSameJob t u → Fate op t (some u)
  deleted : (f : Filters) → op ≡ deletes f → Fate op t none

pub unmoved : (op : Op) (t : Task) → Fate op t (some t)
unmoved op t = kept t stay (ground arith)

-- An update by a guard and a change, from what it does to the one row.
pub updated :
    (op : Op) (guard : Task → Bool) (change : Task → Task) (k : ℕ) (ts : Table) (t : Task)
    → ((u : Task) → (change u).id ≡ u.id)
    → find_task k ts ≡ some t
    → (guard t ≡ true → Move op t.status (change t).status × IsSameJob t (change t))
    → Fate op t (find_task k (update_where guard change ts))
updated op guard change k ts t same e allowed =
    rw (find-update_where (λ u. u.id) k guard change ts same, e) (go (guard t) refl)
  where
    go : (b : Bool) → guard t ≡ b → Fate op t (some (if b then change t else t))
    go true g = kept (change t) (allowed g).0 (allowed g).1
    go false g = unmoved op t
