-- ===== src/Storage/Lifecycle/Invariant.antt =====
-- What holds of the task table between two statements, and that every statement keeps it.
use lapinq.Prelude.{
  ℕ, String, ◌≡◌, refl, sym, subst, ◌≢◌, inl, inr, Bool, true, Option, none, List, [], ◌∷◌, map,
  arith, Bool-cases, Option-cases, ◌==◌,
}
use lapinq.Prelude.Int.{ℤ}
use lapinq.Prelude.Lists.{All, All-append, All-filter, Distinct, filter}
use lapinq.Prelude.Rows.{
  update_where, map-update_where, All-update_where, Distinct-filter, Distinct-snoc,
}
use lapinq.Json.{Json}
use lapinq.Storage.Task.{Double, Status, pending, running, is_final, Task, Table, find_task}
use lapinq.Storage.Enqueue.{
  Request, Result, ok, raise, new_row, insert, is_zero_ttl, table-returning, enqueue,
}
use lapinq.Storage.Batch.{Item, item_row, insert_item}
use lapinq.Storage.Claim.{is_claimable, select_first, claimed, claim_task, heartbeat}
use lapinq.Storage.Finish.{complete_task, update_progress, update_task_metadata, cancel_task}
use lapinq.Storage.Retry.{failure_row, fail_write, recover_stale_tasks, requeue_task, manual_retry}
use lapinq.Storage.Expiry.{cleanup_expired_tasks}
use lapinq.Storage.Queries.{delete_tasks}
use lapinq.Storage.Lifecycle.{
  Op, enqueues, enqueues_item, claims, beats, completes, fails, progresses, annotates, cancels,
  recovers, requeues, retries, cleans_up, deletes, apply, run,
}

abbrev pub ids : Table → List ℕ
ids = map (λ t. t.id)

-- The columns that go with each status.
pub record IsWellFormed (t : Task) : Type 0 where
  pub final_completed : is_final t.status ≡ true → t.completed_at ≢ none
  pub running_started : t.status ≡ running → t.started_at ≢ none
  pub running_owned : t.status ≡ running → t.worker_id ≢ none
  pub running_beats : t.status ≡ running → t.last_heartbeat ≢ none
  pub pending_unstarted : t.status ≡ pending → t.started_at ≡ none
  pub pending_unowned : t.status ≡ pending → t.worker_id ≡ none

pub record IsSound (ts : Table) : Type 0 where
  pub distinct : Distinct (ids ts)
  pub rows : All IsWellFormed ts

-- An update that keeps the identifier and the shape of the rows that it meets.
update-IsSound :
    (guard : Task → Bool) (change : Task → Task) (ts : Table)
    → ((t : Task) → (change t).id ≡ t.id)
    → ((t : Task) → guard t ≡ true → IsWellFormed t → IsWellFormed (change t))
    → IsSound ts
    → IsSound (update_where guard change ts)
update-IsSound guard change ts same keep s = record {
  distinct = subst Distinct (sym (map-update_where (λ t. t.id) guard change ts same)) s.distinct;
  rows = All-update_where IsWellFormed guard change ts keep s.rows;
}

insert-IsSound :
    (row : Task) (ts : Table) → IsWellFormed row → IsSound ts → IsSound (insert row ts).1
unfolding insert
insert-IsSound row ts w s = elim (Option-cases (find_task row.id ts)) [
  | inr (old, e) ↦ rw (e, insert) s
  | inl e ↦
      rw (e, insert)
        record {
          distinct = Distinct-snoc (λ t. t.id) row ts s.distinct e;
          rows = All-append IsWellFormed ts (row ∷ []) s.rows (w, tt);
        }
]

enqueue-IsSound :
    (id now : ℕ) (r : Request) (ts : Table) → IsSound ts → IsSound (enqueue id now r ts).1
unfolding enqueue
enqueue-IsSound id now r ts s = elim (Bool-cases (is_zero_ttl r.ttl_seconds)) [
  | inl e ↦ rw e s
  | inr e ↦ rw e (
      subst IsSound (sym (table-returning (insert (new_row id now r) ts)))
        (insert-IsSound (new_row id now r) ts (ground arith) s))
]

item_row-IsWellFormed :
    (id now : ℕ) (t : Item) (row : Task) → item_row id now t ≡ ok row → IsWellFormed row
unfolding item_row
item_row-IsWellFormed id now t row e = ground arith

insert_item-IsSound :
    (id now : ℕ) (t : Item) (ts : Table) → IsSound ts → IsSound (insert_item id now t ts).1
unfolding insert_item
insert_item-IsSound id now t ts s = go (item_row id now t) refl
  where
    go : (r : Result Task) → item_row id now t ≡ r → IsSound (insert_item id now t ts).1
    go (raise x) e = rw (e, insert_item) s
    go (ok row) e =
        rw (e, insert_item) (insert-IsSound row ts (item_row-IsWellFormed id now t row e) s)

claim_task-IsSound :
    (w : String) (ss : List Status) (now : ℕ) (locked : ℕ → Bool) (ts : Table)
    → IsSound ts
    → IsSound (claim_task w ss now locked ts).1
unfolding claim_task
claim_task-IsSound w ss now locked ts s =
    elim (Option-cases (select_first (is_claimable ss now locked) ts)) [
      | inl e ↦ rw (e, claim_task) s
      | inr (t, e) ↦
          rw (e, claim_task)
            (update-IsSound (λ u. u.id == t.id) (claimed w now) ts (λ u. refl)
              (λ u g h. ground arith) s)
    ]

heartbeat-IsSound : (w : String) (now : ℕ) (ts : Table) → IsSound ts → IsSound (heartbeat w now ts)
unfolding heartbeat
heartbeat-IsSound w now ts s = update-IsSound _ _ ts (λ u. refl) (λ u g h. ground arith) s

fail_write-IsSound :
    (now task_id : ℕ) (error : Option String) (row : Task) (ts : Table)
    → IsSound ts
    → IsSound (fail_write now task_id error row ts)
unfolding fail_write
fail_write-IsSound now task_id error row ts s =
    update-IsSound (λ t. t.id == task_id) (failure_row now error row) ts (λ u. ground arith)
      (λ u g h. ground arith) s

delete-IsSound : (p : Task → Bool) (ts : Table) → IsSound ts → IsSound (filter p ts)
delete-IsSound p ts s = record {
  distinct = Distinct-filter (λ t. t.id) p ts s.distinct;
  rows = All-filter IsWellFormed p ts s.rows;
}

-- The statements that update rows by one guard.
module _ (ts : Table) (s : IsSound ts) where
  complete_task-IsSound :
      (now task_id : ℕ) (result : Option String) → IsSound (complete_task now task_id result ts)
  unfolding complete_task
  complete_task-IsSound now task_id result =
      update-IsSound _ _ ts (λ u. refl) (λ u g h. ground arith) s

  update_progress-IsSound :
      (task_id : ℕ) (p : Double) (m : Option String) → IsSound (update_progress task_id p m ts)
  unfolding update_progress
  update_progress-IsSound task_id p m = update-IsSound _ _ ts (λ u. refl) (λ u g h. ground arith) s

  update_task_metadata-IsSound :
      (concat : Json → Json → Json) (task_id : ℕ) (m : Json)
      → IsSound (update_task_metadata concat task_id m ts)
  unfolding update_task_metadata
  update_task_metadata-IsSound concat task_id m =
      update-IsSound _ _ ts (λ u. refl) (λ u g h. ground arith) s

  cancel_task-IsSound : (now task_id : ℕ) → IsSound (cancel_task now task_id ts).1
  unfolding cancel_task
  cancel_task-IsSound now task_id = update-IsSound _ _ ts (λ u. refl) (λ u g h. ground arith) s

  recover_stale_tasks-IsSound :
      (now seconds : ℕ) (locked : ℕ → Bool) → IsSound (recover_stale_tasks now seconds locked ts).1
  unfolding recover_stale_tasks
  recover_stale_tasks-IsSound now seconds locked =
      update-IsSound _ _ ts (λ u. refl) (λ u g h. ground arith) s

  requeue_task-IsSound : (now task_id : ℕ) → IsSound (requeue_task now task_id ts).1
  unfolding requeue_task
  requeue_task-IsSound now task_id = update-IsSound _ _ ts (λ u. refl) (λ u g h. ground arith) s

  manual_retry-IsSound :
      (now task_id : ℕ) (error : String) (countdown : ℤ)
      → IsSound (manual_retry now task_id error countdown ts)
  unfolding manual_retry
  manual_retry-IsSound now task_id error countdown =
      update-IsSound _ _ ts (λ u. refl) (λ u g h. ground arith) s

  cleanup_expired_tasks-IsSound : (now : ℕ) → IsSound (cleanup_expired_tasks now ts).1
  unfolding cleanup_expired_tasks
  cleanup_expired_tasks-IsSound now = update-IsSound _ _ ts (λ u. refl) (λ u g h. ground arith) s

module _ (concat : Json → Json → Json) (contains : String → String → Bool)
    (text : Json → String) where
  apply-IsSound : (op : Op) (ts : Table) → IsSound ts → IsSound (apply concat contains text op ts)
  unfolding apply delete_tasks
  apply-IsSound (enqueues id now r) ts s = enqueue-IsSound id now r ts s
  apply-IsSound (enqueues_item id now t) ts s = insert_item-IsSound id now t ts s
  apply-IsSound (claims w now locked) ts s = claim_task-IsSound w _ now locked ts s
  apply-IsSound (beats w now) ts s = heartbeat-IsSound w now ts s
  apply-IsSound (completes now i result) ts s = complete_task-IsSound ts s now i result
  apply-IsSound (fails now i error row) ts s = fail_write-IsSound now i error row ts s
  apply-IsSound (progresses i p m) ts s = update_progress-IsSound ts s i p m
  apply-IsSound (annotates i m) ts s = update_task_metadata-IsSound ts s concat i m
  apply-IsSound (cancels now i) ts s = cancel_task-IsSound ts s now i
  apply-IsSound (recovers now seconds locked) ts s =
      recover_stale_tasks-IsSound ts s now seconds locked
  apply-IsSound (requeues now i) ts s = requeue_task-IsSound ts s now i
  apply-IsSound (retries now i error countdown) ts s =
      manual_retry-IsSound ts s now i error countdown
  apply-IsSound (cleans_up now) ts s = cleanup_expired_tasks-IsSound ts s now
  apply-IsSound (deletes f) ts s = delete-IsSound _ ts s

  -- After any history of statements from a table that is sound, as the empty one is: identifiers
  -- are distinct; a final task has a completion time; a running one has a start, a worker and a
  -- heartbeat; a pending one has neither a start nor a worker.
  pub run-IsSound :
      (ops : List Op) (ts : Table) → IsSound ts → IsSound (run concat contains text ops ts)
  unfolding run
  run-IsSound [] ts s = s
  run-IsSound (op ∷ ops) ts s = run-IsSound ops _ (apply-IsSound op ts s)
