-- ===== src/Storage/Finish.antt =====
-- The operations of `Storage` in python/lapinq/storage.py that a worker or a client calls on one task
-- by its identifier: complete_task, update_progress, update_task_metadata, cancel_task.
pub mod Cancel
use lapinq.Prelude.{ℕ, String, Bool, not, ◌&&◌, Option, some, ◌==◌}
use lapinq.Prelude.Lists.{count}
use lapinq.Prelude.Int.{ℤ}
use lapinq.Prelude.Rows.{update_where}
use lapinq.Json.{Json}
use lapinq.Storage.Task.{Double, Task, Table, pending, completed, cancelled, same_status}

abbrev pub completed_row : ℕ → Option String → Task → Task
completed_row now result t = record t {
  status = completed;
  result = result;
  completed_at = some now;
}

unfoldable pub complete_task : ℕ → ℕ → Option String → Table → Table
complete_task now task_id result = update_where (λ t. t.id == task_id) (completed_row now result)

unfoldable pub update_progress : ℕ → Double → Option String → Table → Table
update_progress task_id progress message =
    update_where (λ t. t.id == task_id)
      (λ t. record t { progress = some progress; progress_message = message })

-- `concat` is PostgreSQL's `||` on JSONB.
unfoldable pub update_task_metadata : (Json → Json → Json) → ℕ → Json → Table → Table
update_task_metadata concat task_id metadata =
    update_where (λ t. t.id == task_id) (λ t. record t { metadata = concat t.metadata metadata })

abbrev pub is_cancellable : ℕ → Task → Bool
is_cancellable task_id t = t.id == task_id && same_status t.status pending

abbrev pub cancelled_row : ℕ → Task → Task
cancelled_row now t = record t {
  status = cancelled;
  completed_at = some now;
  error = some "cancelled by user";
}

-- The result says whether the statement met a row.
unfoldable pub cancel_task : ℕ → ℕ → Table → Bool × Table
cancel_task now task_id ts = (
  not (count (is_cancellable task_id) ts == 0),
  update_where (is_cancellable task_id) (cancelled_row now) ts,
)
