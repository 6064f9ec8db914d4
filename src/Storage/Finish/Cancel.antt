-- ===== src/Storage/Finish/Cancel.antt =====
-- Cancelling a pending task, and requeueing a failed one.
use lapinq.Prelude.{
  ℕ, ◌≤◌, ◌≡◌, refl, sym, subst, ap, ◌&&◌, ◌≢◌, Bool, true, false, Option, none, some, List, [],
  ◌∷◌, arith, ◌==◌, Option-cases, inl, inr, if◌then◌else◌,
}
use lapinq.Prelude.Lists.{All, All-map, Distinct, count}
use lapinq.Prelude.Rows.{find-update_where, find-key, map-update_where, count-found, count_absent}
use lapinq.Storage.Task.{Status, pending, failed, same_status, Task, Table, find_task}
use lapinq.Storage.Claim.{is_claimable}
use lapinq.Storage.Claim.Exclusion.{Call, ids, IsPendingIn, claim_all, claim_all-pending}
use lapinq.Storage.Finish.{is_cancellable, cancelled_row, cancel_task}
use lapinq.Storage.Retry.{is_requeueable, requeued_row, requeue_task}

abbrev pub has_status : Status → Option Task → Bool
has_status s none = false
has_status s (some t) = same_status t.status s

-- On a table with distinct identifiers, cancel_task answers true exactly when the task is there
-- and pending, and requeue_task exactly when it is there and failed.
pub cancel_task-requeue_task-answers :
    (now task_id : ℕ) (ts : Table)
    → Distinct (ids ts)
    → ((cancel_task now task_id ts).0 ≡ has_status pending (find_task task_id ts))
      × ((requeue_task now task_id ts).0 ≡ has_status failed (find_task task_id ts))
unfolding cancel_task requeue_task
cancel_task-requeue_task-answers now task_id ts d = elim (Option-cases (find_task task_id ts)) [
  | inl e ↦ ground (arith, none_at pending e, none_at failed e)
  | inr (t, e) ↦ ground (arith, one_at pending t e, one_at failed t e)
]
  where
    none_at :
        (s : Status)
        → find_task task_id ts ≡ none
        → count (λ u. u.id == task_id && same_status u.status s) ts ≡ 0
    none_at s e = count_absent (λ u. u.id) task_id (λ u. same_status u.status s) ts e

    one_at :
        (s : Status) (t : Task)
        → find_task task_id ts ≡ some t
        → count (λ u. u.id == task_id && same_status u.status s) ts
          ≡ (if same_status t.status s then 1 else 0)
    one_at s t e = count-found (λ u. u.id) task_id (λ u. same_status u.status s) ts t d e

found-cancel_task :
    (now task_id : ℕ) (ts : Table) (t : Task)
    → find_task task_id ts ≡ some t
    → t.status ≡ pending
    → find_task task_id (cancel_task now task_id ts).1 ≡ some (cancelled_row now t)
unfolding cancel_task
found-cancel_task now task_id ts t e p = ground (
  arith,
  find-key (λ u. u.id) task_id ts t e,
  find-update_where (λ u. u.id) task_id (is_cancellable task_id) (cancelled_row now) ts (λ u. refl),
)

ids-cancel_task : (now task_id : ℕ) (ts : Table) → ids (cancel_task now task_id ts).1 ≡ ids ts
unfolding cancel_task
ids-cancel_task now task_id ts =
    map-update_where (λ u. u.id) (is_cancellable task_id) (cancelled_row now) ts (λ u. refl)

-- Once cancel_task has answered true, on a table with distinct identifiers, the row is cancelled
-- with its completion time and error set, and no claim of any worker, however many follow with no
-- other operation in between, returns the task.
pub cancel_task-never_claimed :
    (now task_id : ℕ) (ts : Table) (calls : List Call)
    → Distinct (ids ts)
    → (cancel_task now task_id ts).0 ≡ true
    → (t : Task) × (find_task task_id ts ≡ some t)
      × (find_task task_id (cancel_task now task_id ts).1 ≡ some (cancelled_row now t))
      × All (λ k. k ≢ task_id) (ids (claim_all calls (cancel_task now task_id ts).1))
cancel_task-never_claimed now task_id ts calls d h =
    let answer = (cancel_task-requeue_task-answers now task_id ts d).0 in
    elim (Option-cases (find_task task_id ts)) [
      | inl e ↦ absurd (ground (arith, answer))
      | inr (t, e) ↦
          let done = found-cancel_task now task_id ts t e (ground (arith, answer)) in
          (
            t,
            e,
            done,
            All-map (IsPendingIn (cancel_task now task_id ts).1) (λ k. k ≢ task_id) _
                (λ k r same.
                  ground
                    (arith, r, done, ap (λ j. find_task j (cancel_task now task_id ts).1) same))
                (claim_all-pending calls (cancel_task now task_id ts).1
                  (subst Distinct (sym (ids-cancel_task now task_id ts)) d)),
          )
    ]

-- A failed task that is requeued is found pending with no attempts, no error and no completion
-- time, and can be claimed from the same instant on, if no other transaction holds its row.
pub requeue_task-claimable :
    (now later task_id : ℕ) (locked : ℕ → Bool) (ts : Table) (t : Task)
    → find_task task_id ts ≡ some t
    → t.status ≡ failed
    → now ≤ later
    → locked task_id ≡ false
    → (u : Task) × (find_task task_id (requeue_task now task_id ts).1 ≡ some u)
      × (u.attempts ≡ 0)
      × (u.error ≡ none)
      × (u.completed_at ≡ none)
      × (is_claimable (pending ∷ []) later locked u ≡ true)
unfolding requeue_task is_claimable
requeue_task-claimable now later task_id locked ts t e f due free =
    let key = find-key (λ u. u.id) task_id ts t e in
    (
      requeued_row now t,
      ground (
        arith,
        key,
        find-update_where (λ u. u.id) task_id (is_requeueable task_id) (requeued_row now) ts
            (λ u. refl),
      ),
      refl,
      refl,
      refl,
      ground (arith, key),
    )
