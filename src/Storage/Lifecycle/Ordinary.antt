-- ===== src/Storage/Lifecycle/Ordinary.antt =====
-- The statements of python/lapinq/storage.py that neither hand out a task nor settle one for a worker:
-- those of the server, of the scheduler, of the clean-up and of the heartbeats.
use lapinq.Prelude.{
  ℕ, String, ◌≡◌, ◌≢◌, sym, ◌∙◌, subst, inl, inr, Bool, refl, Option, none, some, [], ◌∷◌, ◌++◌,
  arith, Bool-cases, Option-cases,
}
use mathlib.Core.Option.{some-injective}
use lapinq.Prelude.Lists.{Distinct, filter}
use lapinq.Prelude.Rows.{
  update_where, map-update_where, find-update_where, Distinct-filter, Distinct-snoc,
}
use lapinq.Json.{Json}
use lapinq.Storage.Task.{Status, pending, failed, Task, Table, find_task}
use lapinq.Storage.Enqueue.{
  Request, Result, ok, raise, new_row, insert, is_zero_ttl, table-returning, enqueue,
}
use lapinq.Storage.Batch.{Item, item_row, insert_item}
use lapinq.Storage.Claim.{heartbeat}
use lapinq.Storage.Finish.{update_progress, update_task_metadata, cancel_task}
use lapinq.Storage.Retry.{requeue_task}
use lapinq.Storage.Expiry.{cleanup_expired_tasks}
use lapinq.Storage.Queries.{delete_tasks}
use lapinq.Storage.Lifecycle.{
  Op, enqueues, enqueues_item, claims, beats, completes, fails, progresses, annotates, cancels,
  recovers, requeues, retries, cleans_up, deletes, apply,
}
use lapinq.Storage.Lifecycle.Invariant.{ids}
use lapinq.Storage.Lifecycle.Moves.{
  Move, stay, start, complete, retry, give_up, cancel, recover, requeue, retry_by_hand,
  expire_pending, expire_running, Fate, kept, deleted,
}
use lapinq.Storage.Lifecycle.Edges.{apply-Fate}

abbrev pub IsOrdinary : Op → Type 0
IsOrdinary (claims w now locked) = ⊥
IsOrdinary (completes now i result) = ⊥
IsOrdinary (fails now i error row) = ⊥
IsOrdinary (recovers now seconds locked) = ⊥
IsOrdinary (retries now i error countdown) = ⊥
IsOrdinary _ = Unit

-- gen_random_uuid() does not draw `k` for a new row.
abbrev pub IsFresh : Op → ℕ → Type 0
IsFresh (enqueues id now r) k = id ≢ k
IsFresh (enqueues_item id now t) k = id ≢ k
IsFresh _ k = Unit

-- The identifiers stay distinct, and under a condition one without a row stays so.
pub record Keeps (Condition : Type 0) (k : ℕ) (ts us : Table) : Type 0 where
  pub distinct : Distinct (ids ts) → Distinct (ids us)
  pub absent : Condition → find_task k ts ≡ none → find_task k us ≡ none

module _ (k : ℕ) (ts : Table) where
  untouched : (P : Type 0) → Keeps P k ts ts
  untouched P = record { distinct = λ d. d; absent = λ n e. e }

  update-Keeps :
      (guard : Task → Bool) (change : Task → Task)
      → ((t : Task) → (change t).id ≡ t.id)
      → Keeps Unit k ts (update_where guard change ts)
  update-Keeps guard change same = record {
    distinct = subst Distinct (sym (map-update_where (λ t. t.id) guard change ts same));
    absent = λ n e. find-update_where (λ t. t.id) k guard change ts same ∙ (rw e refl);
  }

  filter-Keeps : (p : Task → Bool) → Keeps Unit k ts (filter p ts)
  filter-Keeps p = record {
    distinct = Distinct-filter (λ t. t.id) p ts;
    absent = λ n e. filtered ts e;
  }
    where
      filtered : (us : Table) → find_task k us ≡ none → find_task k (filter p us) ≡ none
      filtered [] e = refl
      filtered (u ∷ us) e = ground (arith, filtered us)

  insert-Keeps : (row : Task) → Keeps (row.id ≢ k) k ts (insert row ts).1
  unfolding insert
  insert-Keeps row = elim (Option-cases (find_task row.id ts)) [
    | inr (old, e) ↦ rw (e, insert) (untouched (row.id ≢ k))
    | inl e ↦
        rw (e, insert)
          (record {
            distinct = λ d. Distinct-snoc (λ t. t.id) row ts d e;
            absent = λ n a. appended ts n a;
          })
  ]
    where
      appended :
          (us : Table) → row.id ≢ k → find_task k us ≡ none → find_task k (us ++ row ∷ []) ≡ none
      appended [] n a = ground (arith, n)
      appended (u ∷ us) n a = ground (arith, appended us n)

  enqueue-Keeps : (id now : ℕ) (r : Request) → Keeps (id ≢ k) k ts (enqueue id now r ts).1
  unfolding enqueue new_row
  enqueue-Keeps id now r = elim (Bool-cases (is_zero_ttl r.ttl_seconds)) [
    | inl z ↦ rw z (untouched (id ≢ k))
    | inr z ↦
        rw (z, table-returning (insert (new_row id now r) ts)) (insert-Keeps (new_row id now r))
  ]

  id-item_row : (id now : ℕ) (i : Item) (row : Task) → item_row id now i ≡ ok row → row.id ≡ id
  unfolding item_row
  id-item_row id now i row e = ground arith

  insert_item-Keeps : (id now : ℕ) (i : Item) → Keeps (id ≢ k) k ts (insert_item id now i ts).1
  unfolding insert_item
  insert_item-Keeps id now i = go (item_row id now i) refl
    where
      go :
          (r : Result Task)
          → item_row id now i ≡ r
          → Keeps (id ≢ k) k ts (insert_item id now i ts).1
      go (raise x) z = rw (z, insert_item) (untouched (id ≢ k))
      go (ok row) z =
          rw (z, insert_item)
            (subst (λ j. Keeps (j ≢ k) k ts (insert row ts).1) (id-item_row id now i row z)
              (insert-Keeps row))

module _ (concat : Json → Json → Json) (contains : String → String → Bool)
    (text : Json → String) where
  pub apply-Keeps :
      (op : Op) (k : ℕ) (ts : Table)
      → IsOrdinary op
      → Keeps (IsFresh op k) k ts (apply concat contains text op ts)
  unfolding apply heartbeat update_progress update_task_metadata cancel_task requeue_task
      cleanup_expired_tasks delete_tasks
  apply-Keeps (enqueues id now r) k ts o = enqueue-Keeps k ts id now r
  apply-Keeps (enqueues_item id now i) k ts o = insert_item-Keeps k ts id now i
  apply-Keeps (beats w now) k ts o = update-Keeps k ts _ _ (λ t. refl)
  apply-Keeps (progresses i p m) k ts o = update-Keeps k ts _ _ (λ t. refl)
  apply-Keeps (annotates i m) k ts o = update-Keeps k ts _ _ (λ t. refl)
  apply-Keeps (cancels now i) k ts o = update-Keeps k ts _ _ (λ t. refl)
  apply-Keeps (requeues now i) k ts o = update-Keeps k ts _ _ (λ t. refl)
  apply-Keeps (cleans_up now) k ts o = update-Keeps k ts _ _ (λ t. refl)
  apply-Keeps (deletes f) k ts o = filter-Keeps k ts _
  apply-Keeps (claims _ now _) k ts o = elim o [ ]
  apply-Keeps (completes now task_id _) k ts o = elim o [ ]
  apply-Keeps (fails now task_id _ _) k ts o = elim o [ ]
  apply-Keeps (recovers now max_running_seconds _) k ts o = elim o [ ]
  apply-Keeps (retries now task_id _ _) k ts o = elim o [ ]

-- No claim takes the row with this identifier, if there is one, and no requeue.
pub record IsOut (s : Status) : Type 0 where
  pub not_pending : s ≢ pending
  pub not_failed : s ≢ failed

abbrev pub IsHeld : Table → ℕ → Type 0
IsHeld ts k = (t : Task) → find_task k ts ≡ some t → IsOut t.status

move-IsOut : (op : Op) (a b : Status) → IsOrdinary op → Move op a b → IsOut a → IsOut b
move-IsOut op a b o stay h = h
move-IsOut op a b o start h = elim o [ ]
move-IsOut op a b o complete h = elim o [ ]
move-IsOut op a b o retry h = elim o [ ]
move-IsOut op a b o give_up h = elim o [ ]
move-IsOut op a b o cancel h = ground arith
move-IsOut op a b o recover h = elim o [ ]
move-IsOut op a b o requeue h = absurd (h.not_failed refl)
move-IsOut op a b o retry_by_hand h = elim o [ ]
move-IsOut op a b o expire_pending h = ground arith
move-IsOut op a b o expire_running h = ground arith

-- A held identifier stays held.
pub apply-IsHeld :
    (concat : Json → Json → Json) (contains : String → String → Bool) (text : Json → String)
    (op : Op) (k : ℕ) (ts : Table)
    → IsOrdinary op
    → IsFresh op k
    → Distinct (ids ts)
    → IsHeld ts k
    → IsHeld (apply concat contains text op ts) k
apply-IsHeld concat contains text op k ts o n d h r e = elim (Option-cases (find_task k ts)) [
  | inl x ↦ absurd (ground (arith, (apply-Keeps concat contains text op k ts o).absent n x, e))
  | inr (t, x) ↦
      moved t (find_task k (apply concat contains text op ts)) (h t x)
        (apply-Fate concat contains text op k ts t d x) e
]
  where
    moved :
        (t : Task) (u : Option Task) → IsOut t.status → Fate op t u → u ≡ some r → IsOut r.status
    moved t u out (kept v m same) eq =
        subst (λ w. IsOut w.status) (some-injective v r eq)
          (move-IsOut op t.status v.status o m out)
    moved t u out (deleted f y) eq = absurd (ground (arith, eq))
