-- ===== src/Storage/Lifecycle/Edges.antt =====
-- Every statement of python/lapinq/storage.py keeps to the table of moves of `Moves`.
use lapinq.Prelude.{
  ℕ, ◌+◌, String, ◌≡◌, refl, inl, inr, Bool, true, false, not, Option, none, some, [], ◌∷◌, arith,
  Bool-cases, Option-cases, ◌==◌, if◌then◌else◌,
}
use lapinq.Prelude.Int.{ℤ, pos, ltb_ℤ}
use lapinq.Prelude.Lists.{Distinct}
use lapinq.Prelude.Rows.{find-key, find-filter, find-append}
use lapinq.Json.{Json}
use lapinq.Storage.Task.{
  Double, Status, pending, running, completed, failed, expired, is_final, Task, Table, find_task,
}
use lapinq.Storage.Enqueue.{Request, new_row, insert, is_zero_ttl, table-returning, enqueue}
use lapinq.Storage.Enqueue.{Result, ok, raise}
use lapinq.Storage.Batch.{Item, item_row, insert_item}
use lapinq.Storage.Claim.{is_claimable, select_first, claimed, claim_task, heartbeat}
use lapinq.Storage.Claim.Choice.{claimable-pending, select_first-wanted, find_task-select_first}
use lapinq.Storage.Finish.{complete_task, update_progress, update_task_metadata, cancel_task}
use lapinq.Storage.Retry.{failure_row, fail_write, recover_stale_tasks, requeue_task, manual_retry}
use lapinq.Storage.Expiry.{cleanup_expired_tasks}
use lapinq.Storage.Queries.{Filters, delete_tasks, meets}
use lapinq.Storage.Lifecycle.{
  Op, enqueues, enqueues_item, claims, beats, completes, fails, progresses, annotates, cancels,
  recovers, requeues, retries, cleans_up, deletes, apply,
}
use lapinq.Storage.Lifecycle.Invariant.{ids}
use lapinq.Storage.Lifecycle.Moves.{
  Move, stay, start, complete, retry, give_up, cancel, recover, requeue, retry_by_hand,
  expire_pending, expire_running, Fate, deleted, unmoved, updated,
}

module _ (k : ℕ) (ts : Table) (t : Task) (e : find_task k ts ≡ some t) where
  insert-Fate : (op : Op) (row : Task) → Fate op t (find_task k (insert row ts).1)
  unfolding insert
  insert-Fate op row = elim (Option-cases (find_task row.id ts)) [
    | inr (old, x) ↦ rw (x, insert, e) (unmoved op t)
    | inl x ↦ rw (x, insert, find-append (λ u. u.id) k ts _ t e) (unmoved op t)
  ]

  enqueue-Fate :
      (op : Op) (id now : ℕ) (r : Request) → Fate op t (find_task k (enqueue id now r ts).1)
  unfolding enqueue
  enqueue-Fate op id now r = elim (Bool-cases (is_zero_ttl r.ttl_seconds)) [
    | inl z ↦ rw (z, e) (unmoved op t)
    | inr z ↦
        rw (z, table-returning (insert (new_row id now r) ts)) (insert-Fate op (new_row id now r))
  ]

  insert_item-Fate :
      (op : Op) (id now : ℕ) (i : Item) → Fate op t (find_task k (insert_item id now i ts).1)
  unfolding insert_item
  insert_item-Fate op id now i = go (item_row id now i) refl
    where
      go :
          (r : Result Task)
          → item_row id now i ≡ r
          → Fate op t (find_task k (insert_item id now i ts).1)
      go (raise x) z = rw (z, insert_item, e) (unmoved op t)
      go (ok row) z = rw (z, insert_item) (insert-Fate op row)

  claim_task-Fate :
      (w : String) (now : ℕ) (locked : ℕ → Bool)
      → Distinct (ids ts)
      → Fate (claims w now locked) t (find_task k (claim_task w (pending ∷ []) now locked ts).1)
  unfolding claim_task
  claim_task-Fate w now locked d =
      elim (Option-cases (select_first (is_claimable (pending ∷ []) now locked) ts)) [
        | inl x ↦ rw (x, claim_task, e) (unmoved _ t)
        | inr (u, x) ↦
            rw (x, claim_task)
              (updated (claims w now locked) (λ v. v.id == u.id) (claimed w now) k ts t (λ v. refl)
                e (λ g. let p = was_pending u x (ground arith) in (rw p start, ground arith)))
      ]
    where
      was_pending :
          (u : Task)
          → select_first (is_claimable (pending ∷ []) now locked) ts ≡ some u
          → t.id ≡ u.id
          → t.status ≡ pending
      was_pending u x q =
          let same : t ≡ u = ground (
            arith,
            find-key (λ v. v.id) k ts t e,
            find_task-select_first (is_claimable (pending ∷ []) now locked) ts u d x,
          ) in
          rw same (
            claimable-pending now locked u
              (select_first-wanted (is_claimable (pending ∷ []) now locked) ts u x))

  heartbeat-Fate : (w : String) (now : ℕ) → Fate (beats w now) t (find_task k (heartbeat w now ts))
  unfolding heartbeat
  heartbeat-Fate w now = updated _ _ _ k ts t (λ v. refl) e (λ g. (stay, ground arith))

  complete_task-Fate :
      (now i : ℕ) (result : Option String)
      → Fate (completes now i result) t (find_task k (complete_task now i result ts))
  unfolding complete_task
  complete_task-Fate now i result =
      updated _ _ _ k ts t (λ v. refl) e (λ g. (complete, ground arith))

  fail_write-Fate :
      (now i : ℕ) (error : Option String) (row : Task)
      → Fate (fails now i error row) t (find_task k (fail_write now i error row ts))
  unfolding fail_write
  fail_write-Fate now i error row =
      updated _ (λ v. v.id == i) (failure_row now error row) k ts t (λ v. ground arith) e
        (λ g. (failure_move, ground arith))
    where
      failure_move : Move (fails now i error row) t.status (failure_row now error row t).status
      failure_move = elim (Bool-cases (ltb_ℤ (pos (row.attempts + 1)) row.max_retries)) [
        | inl b ↦ rw (b, failure_row) retry
        | inr b ↦ rw (b, failure_row) give_up
      ]

  update_progress-Fate :
      (i : ℕ) (p : Double) (m : Option String)
      → Fate (progresses i p m) t (find_task k (update_progress i p m ts))
  unfolding update_progress
  update_progress-Fate i p m = updated _ _ _ k ts t (λ v. refl) e (λ g. (stay, ground arith))

  update_task_metadata-Fate :
      (concat : Json → Json → Json) (i : ℕ) (m : Json)
      → Fate (annotates i m) t (find_task k (update_task_metadata concat i m ts))
  unfolding update_task_metadata
  update_task_metadata-Fate concat i m =
      updated _ _ _ k ts t (λ v. refl) e (λ g. (stay, ground arith))

  cancel_task-Fate : (now i : ℕ) → Fate (cancels now i) t (find_task k (cancel_task now i ts).1)
  unfolding cancel_task
  cancel_task-Fate now i =
      updated _ _ _ k ts t (λ v. refl) e
        (λ g. let p : t.status ≡ pending = ground arith in (rw p cancel, ground arith))

  recover_stale_tasks-Fate :
      (now seconds : ℕ) (locked : ℕ → Bool)
      → Fate
          (recovers now seconds locked)
          t
          (find_task k (recover_stale_tasks now seconds locked ts).1)
  unfolding recover_stale_tasks
  recover_stale_tasks-Fate now seconds locked =
      updated _ _ _ k ts t (λ v. refl) e
        (λ g. let p : t.status ≡ running = ground arith in (rw p recover, ground arith))

  requeue_task-Fate : (now i : ℕ) → Fate (requeues now i) t (find_task k (requeue_task now i ts).1)
  unfolding requeue_task
  requeue_task-Fate now i =
      updated _ _ _ k ts t (λ v. refl) e
        (λ g. let p : t.status ≡ failed = ground arith in (rw p requeue, ground arith))

  manual_retry-Fate :
      (now i : ℕ) (error : String) (countdown : ℤ)
      → Fate (retries now i error countdown) t (find_task k (manual_retry now i error countdown ts))
  unfolding manual_retry
  manual_retry-Fate now i error countdown =
      updated _ _ _ k ts t (λ v. refl) e (λ g. (retry_by_hand, ground arith))

  cleanup_expired_tasks-Fate :
      (now : ℕ) → Fate (cleans_up now) t (find_task k (cleanup_expired_tasks now ts).1)
  unfolding cleanup_expired_tasks
  cleanup_expired_tasks-Fate now =
      updated _ _ _ k ts t (λ v. refl) e (λ g. (expiry t.status refl (ground arith), ground arith))
    where
      expiry :
          (s : Status) → t.status ≡ s → is_final s ≡ false → Move (cleans_up now) t.status expired
      expiry pending p h = rw p expire_pending
      expiry running p h = rw p expire_running
      expiry completed p h = absurd (ground arith)
      expiry _ p h = absurd (ground arith)

  delete_tasks-Fate :
      (contains : String → String → Bool) (text : Json → String) (f : Filters)
      → Distinct (ids ts)
      → Fate (deletes f) t (find_task k (delete_tasks contains text f ts).1)
  unfolding delete_tasks
  delete_tasks-Fate contains text f d =
      rw (find-filter (λ u. u.id) k (λ u. not (meets contains text f u)) ts t d e)
        (go (not (meets contains text f t)))
    where
      go : (b : Bool) → Fate (deletes f) t (if b then some t else none)
      go true = unmoved _ t
      go false = deleted f refl

-- Whatever a statement does to a table with distinct identifiers, each row that was there either
-- has gone, by delete_tasks, or is there with the same job, and its status has stayed or made a
-- move that this kind of statement may make: claim starts a pending task, cancel takes a pending
-- one, recovery a running one, requeue a failed one and expiry one that is not final; only
-- complete, fail and a manual retry may move any status.
pub apply-Fate :
    (concat : Json → Json → Json) (contains : String → String → Bool) (text : Json → String)
    (op : Op) (k : ℕ) (ts : Table) (t : Task)
    → Distinct (ids ts)
    → find_task k ts ≡ some t
    → Fate op t (find_task k (apply concat contains text op ts))
unfolding apply
apply-Fate concat contains text (enqueues id now r) k ts t d e = enqueue-Fate k ts t e _ id now r
apply-Fate concat contains text (enqueues_item id now i) k ts t d e =
    insert_item-Fate k ts t e _ id now i
apply-Fate concat contains text (claims w now locked) k ts t d e =
    claim_task-Fate k ts t e w now locked d
apply-Fate concat contains text (beats w now) k ts t d e = heartbeat-Fate k ts t e w now
apply-Fate concat contains text (completes now i result) k ts t d e =
    complete_task-Fate k ts t e now i result
apply-Fate concat contains text (fails now i error row) k ts t d e =
    fail_write-Fate k ts t e now i error row
apply-Fate concat contains text (progresses i p m) k ts t d e = update_progress-Fate k ts t e i p m
apply-Fate concat contains text (annotates i m) k ts t d e =
    update_task_metadata-Fate k ts t e concat i m
apply-Fate concat contains text (cancels now i) k ts t d e = cancel_task-Fate k ts t e now i
apply-Fate concat contains text (recovers now seconds locked) k ts t d e =
    recover_stale_tasks-Fate k ts t e now seconds locked
apply-Fate concat contains text (requeues now i) k ts t d e = requeue_task-Fate k ts t e now i
apply-Fate concat contains text (retries now i error countdown) k ts t d e =
    manual_retry-Fate k ts t e now i error countdown
apply-Fate concat contains text (cleans_up now) k ts t d e = cleanup_expired_tasks-Fate k ts t e now
apply-Fate concat contains text (deletes f) k ts t d e =
    delete_tasks-Fate k ts t e contains text f d
