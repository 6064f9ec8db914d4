-- ===== src/Storage/Retry/Locality.antt =====
-- Statements that write to the row of one identifier only: fail_task and complete_task.
use lapinq.Prelude.{ℕ, ◌≡◌, ◌≢◌, refl, inl, inr, String, Option, [], ◌∷◌, arith, Option-cases, ◌==◌}
use lapinq.Prelude.Rows.{update_where, map-update_where}
use lapinq.Storage.Task.{Task, Table, find_task}
use lapinq.Storage.Lifecycle.Invariant.{ids}
use lapinq.Storage.Finish.{complete_task, completed_row}
use lapinq.Storage.Retry.{fail_task, fail_write, failure_row}
use lapinq.Storage.Retry.Backoff.{id-failure_row}

-- The table afterwards has the same identifiers, and the same rows at all of them but `k`.
pub record IsLocal (k : ℕ) (ts us : Table) : Type 0 where
  pub same_ids : ids us ≡ ids ts
  pub elsewhere : (i : ℕ) → i ≢ k → find_task i us ≡ find_task i ts

pub unchanged : (k : ℕ) (ts : Table) → IsLocal k ts ts
unchanged k ts = record { same_ids = refl; elsewhere = λ i n. refl }

pub update-IsLocal :
    (k : ℕ) (change : Task → Task) (ts : Table)
    → ((u : Task) → (change u).id ≡ u.id)
    → IsLocal k ts (update_where (λ u. u.id == k) change ts)
update-IsLocal k change ts same = record {
  same_ids = map-update_where (λ u. u.id) (λ u. u.id == k) change ts same;
  elsewhere = λ i n. other_row i n ts;
}
  where
    other_row :
        (i : ℕ)
        → i ≢ k
        → (us : Table) → find_task i (update_where (λ u. u.id == k) change us) ≡ find_task i us
    other_row i n [] = refl
    other_row i n (u ∷ us) = ground (arith, same u, other_row i n us)

pub fail_task-IsLocal :
    (now k : ℕ) (error : Option String) (ts : Table) → IsLocal k ts (fail_task now k error ts)
unfolding fail_task fail_write
fail_task-IsLocal now k error ts = elim (Option-cases (find_task k ts)) [
  | inl e ↦ rw (e, fail_task) (unchanged k ts)
  | inr (row, e) ↦
      rw (e, fail_task)
        (update-IsLocal k (failure_row now error row) ts (id-failure_row now error row))
]

pub complete_task-IsLocal :
    (now k : ℕ) (result : Option String) (ts : Table) → IsLocal k ts (complete_task now k result ts)
unfolding complete_task
complete_task-IsLocal now k result ts = update-IsLocal k (completed_row now result) ts (λ u. refl)
