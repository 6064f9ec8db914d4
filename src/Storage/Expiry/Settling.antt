-- ===== src/Storage/Expiry/Settling.antt =====
-- What `cleanup_expired_tasks` leaves, and a worker that reports after it.
use lapinq.Prelude.{ℕ, String, ◌≡◌, refl, true, false, Option, some, arith, ◌==◌}
use lapinq.Prelude.Rows.{
  find-update_where, find-key, update_where, update_where_none, count-update_where,
}
use lapinq.Storage.Task.{running, Task, Table, find_task}
use lapinq.Storage.Finish.{completed_row, complete_task}
use lapinq.Storage.Expiry.{is_overdue, is_expired, expired_row, cleanup_expired_tasks}

expired_row-leaves :
    (now : ℕ) (t : Task) → is_expired now t ≡ true → is_expired now (expired_row now t) ≡ false
unfolding is_expired
expired_row-leaves now t h = ground arith

-- A second run of the clean-up at the same instant finds nothing to expire and changes nothing.
pub cleanup_expired_tasks-settles :
    (now : ℕ) (ts : Table)
    → cleanup_expired_tasks now (cleanup_expired_tasks now ts).1
      ≡ (0, (cleanup_expired_tasks now ts).1)
unfolding cleanup_expired_tasks
cleanup_expired_tasks-settles now ts =
    let clean = count-update_where (is_expired now) (expired_row now) ts (expired_row-leaves now) in
    let still =
      update_where_none (is_expired now) (expired_row now)
        (update_where (is_expired now) (expired_row now) ts) clean in
    λ i. (clean i, still i)

-- A running task whose time to live is over is expired by the clean-up; the report of its worker,
-- which comes after, makes the same row completed: complete_task does not look at the status.
pub complete_task-overwrites_expired :
    (now later task_id : ℕ) (result : Option String) (ts : Table) (t : Task)
    → find_task task_id ts ≡ some t
    → t.status ≡ running
    → is_overdue now t.created_at t.ttl_seconds ≡ true
    → (find_task task_id (cleanup_expired_tasks now ts).1 ≡ some (expired_row now t))
      × (find_task task_id (complete_task later task_id result (cleanup_expired_tasks now ts).1)
          ≡ some (completed_row later result (expired_row now t)))
unfolding cleanup_expired_tasks complete_task
complete_task-overwrites_expired now later task_id result ts t e run over =
    let key = find-key (λ u. u.id) task_id ts t e in
    let cleaned =
      find-update_where (λ u. u.id) task_id (is_expired now) (expired_row now) ts (λ u. refl) in
    let done =
      find-update_where (λ u. u.id) task_id (λ u. u.id == task_id) (completed_row later result)
        (update_where (is_expired now) (expired_row now) ts) (λ u. refl) in
    (ground (arith, key, cleaned), ground (arith, key, cleaned, done))
