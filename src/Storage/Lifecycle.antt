-- ===== src/Storage/Lifecycle.antt =====
-- Every statement of python/lapinq/storage.py and python/lapinq/execute.py that writes the table
-- `lapinq_tasks`, as one step. A history is a list of such steps, in the order in which they commit.
pub mod Invariant
pub mod Moves
pub mod Edges
pub mod Ordinary
use lapinq.Prelude.{ℕ, String, Bool, Option, List, [], ◌∷◌, not}
use lapinq.Prelude.Int.{ℤ}
use lapinq.Prelude.Lists.{filter}
use lapinq.Json.{Json}
use lapinq.Storage.Task.{Double, Status, pending, Task, Table}
use lapinq.Storage.Enqueue.{Request, enqueue}
use lapinq.Storage.Batch.{Item, insert_item}
use lapinq.Storage.Claim.{claim_task, heartbeat}
use lapinq.Storage.Finish.{complete_task, update_progress, update_task_metadata, cancel_task}
use lapinq.Storage.Retry.{fail_task, fail_write, recover_stale_tasks, requeue_task, manual_retry}
use lapinq.Storage.Expiry.{cleanup_expired_tasks}
use lapinq.Storage.Queries.{Filters, delete_tasks}

pub data Op : Type 0 where
  enqueues : (id now : ℕ) → Request → Op
  enqueues_item : (id now : ℕ) → Item → Op
  claims : String → (now : ℕ) → (ℕ → Bool) → Op
  beats : String → (now : ℕ) → Op
  completes : (now task_id : ℕ) → Option String → Op
  -- the write of fail_task, from a row that it read at any time before
  fails : (now task_id : ℕ) → Option String → Task → Op
  progresses : (task_id : ℕ) → Double → Option String → Op
  annotates : (task_id : ℕ) → Json → Op
  cancels : (now task_id : ℕ) → Op
  recovers : (now max_running_seconds : ℕ) → (ℕ → Bool) → Op
  requeues : (now task_id : ℕ) → Op
  retries : (now task_id : ℕ) → String → ℤ → Op
  cleans_up : (now : ℕ) → Op
  deletes : Filters → Op

-- PostgreSQL's `||` on JSONB, ILIKE and the text of a JSONB value.
module _ (concat : Json → Json → Json) (contains : String → String → Bool)
    (text : Json → String) where
  pub apply : Op → Table → Table
  apply (enqueues id now r) ts = (enqueue id now r ts).1
  apply (enqueues_item id now t) ts = (insert_item id now t ts).1
  apply (claims w now locked) ts = (claim_task w (pending ∷ []) now locked ts).1
  apply (beats w now) ts = heartbeat w now ts
  apply (completes now task_id result) ts = complete_task now task_id result ts
  apply (fails now task_id error row) ts = fail_write now task_id error row ts
  apply (progresses task_id progress message) ts = update_progress task_id progress message ts
  apply (annotates task_id metadata) ts = update_task_metadata concat task_id metadata ts
  apply (cancels now task_id) ts = (cancel_task now task_id ts).1
  apply (recovers now seconds locked) ts = (recover_stale_tasks now seconds locked ts).1
  apply (requeues now task_id) ts = (requeue_task now task_id ts).1
  apply (retries now task_id error countdown) ts = manual_retry now task_id error countdown ts
  apply (cleans_up now) ts = (cleanup_expired_tasks now ts).1
  apply (deletes f) ts = (delete_tasks contains text f ts).1

  unfoldable pub run : List Op → Table → Table
  unfolding apply
  run [] ts = ts
  run (op ∷ ops) ts = run ops (apply op ts)
