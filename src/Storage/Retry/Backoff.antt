-- ===== src/Storage/Retry/Backoff.antt =====
-- The delays of `_retry_backoff_seconds` and how `fail_task` uses them.
use lapinq.Prelude.{
  ℕ, ◌+◌, ◌*◌, ◌≤◌, ◌<◌, String, ◌≡◌, refl, map, Bool, true, false, Option, some, [], ◌∷◌, arith,
  leb, ◌==◌, ==_iff, Bool-cases, Option-cases, inl, inr, ap, if◌then◌else◌,
}
use lapinq.Prelude.Int.{pos, ◌<ℤ◌}
use lapinq.Prelude.Rows.{find-update_where, find-key}
use lapinq.Storage.Task.{pending, Task, Table, find_task, second}
use lapinq.Storage.Claim.{is_claimable}
use lapinq.Storage.Retry.{retry_backoff_seconds, failure_row, fail_task}

-- The first five attempts wait 10, 30, 60, 300 and 600 seconds, and each later one 600; so a first
-- or later attempt waits at least 10 seconds, a later one never less than an earlier one, and none
-- more than 600.
pub retry_backoff_seconds_bounds :
    (a b : ℕ)
    → 0 < a
    → a ≤ b
    → (10 ≤ retry_backoff_seconds a)
      × (retry_backoff_seconds a ≤ retry_backoff_seconds b)
      × (retry_backoff_seconds b ≤ 600)
      × (map retry_backoff_seconds (1 ∷ 2 ∷ 3 ∷ 4 ∷ 5 ∷ []) ≡ 10 ∷ 30 ∷ 60 ∷ 300 ∷ 600 ∷ [])
      × (retry_backoff_seconds (a + 4) ≡ 600)
unfolding retry_backoff_seconds
retry_backoff_seconds_bounds a b h k =
    (ground arith, ground arith, ground arith, refl, ground arith)

pub id-failure_row :
    (now : ℕ) (error : Option String) (row t : Task) → (failure_row now error row t).id ≡ t.id
unfolding failure_row
id-failure_row now error row t = ground arith

-- fail_task changes the row of its task as `failure_row` says, by the row itself, and no other row.
pub find_task-fail_task :
    (now task_id k : ℕ) (error : Option String) (ts : Table) (t : Task)
    → find_task k ts ≡ some t
    → find_task k (fail_task now task_id error ts)
      ≡ some (if k == task_id then failure_row now error t t else t)
unfolding fail_task
find_task-fail_task now task_id k error ts t e = elim (Option-cases (find_task task_id ts)) [
  | inl x ↦
      rw (x, fail_task)
        (elim (Bool-cases (k == task_id)) [
          | inl same ↦ absurd (ground (arith, ap (λ j. find_task j ts) ((==_iff k task_id).0 same)))
          | inr other ↦ rw (other) e
        ])
  | inr (row, x) ↦
      rw (x, fail_task)
        (ground (
          arith,
          find-key (λ u. u.id) k ts t e,
          find-update_where (λ u. u.id) k (λ u. u.id == task_id) (failure_row now error row) ts
              (id-failure_row now error row),
          ap (λ j. find_task j ts) {x = k} {y = task_id},
        ))
]

-- After a failure that is retried with backoff, the task is claimable again exactly from the
-- moment when the delay of its new number of attempts has passed, if no other transaction holds
-- its row.
pub fail_task-waits :
    (now task_id later : ℕ) (error : Option String) (locked : ℕ → Bool) (ts : Table) (t : Task)
    → find_task task_id ts ≡ some t
    → t.retry_backoff ≡ some true
    → pos (t.attempts + 1) <ℤ t.max_retries
    → locked task_id ≡ false
    → (u : Task) × (find_task task_id (fail_task now task_id error ts) ≡ some u)
      × (is_claimable (pending ∷ []) later locked u
          ≡ leb (now + retry_backoff_seconds (t.attempts + 1) * second) later)
unfolding failure_row is_claimable
fail_task-waits now task_id later error locked ts t e b more free = (
  failure_row now error t t,
  ground (arith, find_task-fail_task now task_id task_id error ts t e),
  ground (arith, find-key (λ u. u.id) task_id ts t e),
)
