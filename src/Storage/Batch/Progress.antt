-- ===== src/Storage/Batch/Progress.antt =====
-- What a batch leaves in the table, when it succeeds and when an item of it fails.
use lapinq.Prelude.{
  ℕ, ◌≡◌, refl, sym, ◌∙◌, ap, Bool, false, List, [], ◌∷◌, ◌++◌, map, arith, Bool-cases, inl, inr,
  Option-cases,
}
use mathlib.Core.List.{append-nil, append_assoc}
use lapinq.Storage.Task.{Task, Table, find_task}
use lapinq.Storage.Enqueue.{Error, unique_violation, Result, ok, raise, is_zero_ttl, insert}
use lapinq.Storage.Batch.{
  Item, get_none, item_row, insert_item, prepend, after_insert, enqueue_batch,
}

abbrev pub Entry : Type 0
Entry = ℕ × ℕ × Item

abbrev pub is_skipped : Item → Bool
is_skipped t = is_zero_ttl (get_none t.ttl_seconds)

-- The rows that a batch added go with its answer: the identifiers, if it succeeded.
abbrev pub Answers : Result (List ℕ) → Table → Type 0
Answers (ok ids) rows = map (λ t. t.id) rows ≡ ids
Answers (raise e) rows = Unit {0}

-- One INSERT either is refused and changes nothing, or appends one row.
pub data Inserted (id now : ℕ) (t : Item) (ts : Table) : Type 0 where
  refused : (e : Error) → insert_item id now t ts ≡ (raise e, ts) → Inserted id now t ts
  added :
      (row : Task) → insert_item id now t ts ≡ (ok row.id, ts ++ row ∷ []) → Inserted id now t ts

pub inserted : (id now : ℕ) (t : Item) (ts : Table) → Inserted id now t ts
unfolding insert_item
inserted id now t ts = go (item_row id now t) refl
  where
    go : (r : Result Task) → item_row id now t ≡ r → Inserted id now t ts
    go (raise e) x = refused e (rw (x, insert_item))
    go (ok row) x = elim (Option-cases (find_task row.id ts)) [
      | inl y ↦ added row (rw (x, insert_item, y, insert))
      | inr (old, y) ↦ refused unique_violation (rw (x, insert_item, y, insert))
    ]

Answers-prepend :
    (row : Task) (r : Result (List ℕ)) (rows : Table)
    → Answers r rows
    → Answers (prepend row.id r) (row ∷ rows)
Answers-prepend row (ok ids) rows h = ap (λ is. row.id ∷ is) h
Answers-prepend row (raise e) rows h = tt

-- A batch only appends rows to the table, and if it succeeds the identifiers that it answers are
-- those of the appended rows, in order.
pub enqueue_batch-grows :
    (entries : List Entry) (ts : Table)
    → (rows : Table) × ((enqueue_batch entries ts).1 ≡ ts ++ rows)
      × Answers (enqueue_batch entries ts).0 rows
unfolding enqueue_batch
enqueue_batch-grows [] ts = ([], sym (append-nil ts), refl)
enqueue_batch-grows ((id, now, t) ∷ rest) ts = elim (Bool-cases (is_skipped t)) [
  | inl skip ↦ rw skip (enqueue_batch-grows rest ts)
  | inr keep ↦ elim (inserted id now t ts) [
    | refused e x ↦ ([], rw (keep, x) (sym (append-nil ts)), rw (keep, x) tt)
    | added row x ↦
        let (rows, grown, answers) = enqueue_batch-grows rest (ts ++ row ∷ []) in
        (
          row ∷ rows,
          rw (keep, x) (grown ∙ append_assoc ts (row ∷ []) rows),
          rw (keep, x) (Answers-prepend row _ rows answers),
        )
  ]
]

insert_item-raise :
    (id now : ℕ) (t : Item) (ts : Table) (e : Error)
    → item_row id now t ≡ raise e
    → insert_item id now t ts ≡ (raise e, ts)
unfolding insert_item
insert_item-raise id now t ts e h = rw (h, insert_item)

after_insert-ok :
    (rest : Table → Result (List ℕ) × Table) (id : ℕ) (us : Table) (ids : List ℕ) (ts : Table)
    → after_insert rest (ok id, us) ≡ (ok ids, ts)
    → (ids' : List ℕ) × (rest us ≡ (ok ids', ts))
after_insert-ok rest id us ids ts h = go (rest us) refl
  where
    go : (r : Result (List ℕ) × Table) → rest us ≡ r → (ids' : List ℕ) × (rest us ≡ (ok ids', ts))
    go (ok ids', ts'') e = (ids', ground arith)
    go (raise x, ts'') e = absurd (ground arith)

-- If the batch fails at an item after `xs`, which succeeds by itself, the answer is the exception
-- and the table is the one that `xs` leaves: a batch is not one transaction.
pub enqueue_batch-not_atomic :
    (xs ys : List Entry) (id now : ℕ) (t : Item) (ids : List ℕ) (e : Error) (ts ts' : Table)
    → enqueue_batch xs ts ≡ (ok ids, ts')
    → is_skipped t ≡ false
    → item_row id now t ≡ raise e
    → enqueue_batch (xs ++ (id, now, t) ∷ ys) ts ≡ (raise e, ts')
unfolding enqueue_batch
enqueue_batch-not_atomic [] ys id now t ids e ts ts' done keep bad =
    rw (keep, insert_item-raise id now t ts e bad) (ground arith)
enqueue_batch-not_atomic ((i, n, x) ∷ xs) ys id now t ids e ts ts' done keep bad =
    elim (Bool-cases (is_skipped x)) [
      | inl skip ↦
          rw skip (enqueue_batch-not_atomic xs ys id now t ids e ts ts' (rw skip at done) keep bad)
      | inr kept ↦ elim (inserted i n x ts) [
        | refused f y ↦ absurd (ground (arith, done_of kept y))
        | added row y ↦
            let (ids', rest) =
              after_insert-ok (enqueue_batch xs) row.id _ ids ts' (done_of kept y) in
            rw (kept, y, enqueue_batch-not_atomic xs ys id now t ids' e _ ts' rest keep bad)
      ]
    ]
  where
    done_of :
        {r : Result ℕ × Table}
        → is_skipped x ≡ false
        → insert_item i n x ts ≡ r
        → after_insert (enqueue_batch xs) r ≡ (ok ids, ts')
    done_of k y = rw (k, y) at done
