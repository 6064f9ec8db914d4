-- ===== src/Storage/Queries/Listing.antt =====
-- `list_tasks` gives the newest rows that meet its filters; `delete_tasks` removes what its filters meet.
use native.Mathlib.Nat.{le_trans}
use lapinq.Prelude.{
  ℕ, zero, suc, ◌+◌, ◌≤◌, String, ◌≡◌, refl, ◌∙◌, Bool, true, false, not, ◌&&◌, Option, List, [],
  ◌∷◌, arith, ltb, if◌then◌else◌, sym, ap, Bool-cases, inl, inr,
}
use lapinq.Prelude.Lists.{All, All-map, count, filter, length, take, length-take-le, length-filter}
use lapinq.Json.{Json}
use lapinq.Storage.Task.{Task, Table}
use lapinq.Storage.Queries.{
  Filters, meets, delete_tasks, place, newest_first, list_filters, list_tasks,
}

-- ORDER BY created_at DESC
abbrev pub IsNewestFirst : List Task → Type 0
IsNewestFirst [] = Unit
IsNewestFirst (t ∷ ts) = All (λ u. u.created_at ≤ t.created_at) ts × IsNewestFirst ts

All-place {ℓ} :
    (P : Task → Type ℓ) (t : Task) (us : List Task) → P t → All P us → All P (place t us)
unfolding place
All-place P t [] p h = (p, tt)
All-place P t (u ∷ us) p h = ground (arith, All-place P t us p h.1)

place-IsNewestFirst : (t : Task) (us : List Task) → IsNewestFirst us → IsNewestFirst (place t us)
unfolding place
place-IsNewestFirst t [] s = (tt, tt)
place-IsNewestFirst t (u ∷ us) (h, s) = elim (Bool-cases (ltb t.created_at u.created_at)) [
  | inl older ↦ rw older (
    All-place (λ v. v.created_at ≤ u.created_at) t us (ground arith) h,
    place-IsNewestFirst t us s,
  )
  | inr newer ↦
      let le : u.created_at ≤ t.created_at = ground arith in
      rw newer (
        (
          le,
          All-map (λ v. v.created_at ≤ u.created_at) (λ v. v.created_at ≤ t.created_at) us
              (λ v k. le_trans k le) h,
        ),
        (h, s),
      )
]

newest_first-IsNewestFirst : (ts : Table) → IsNewestFirst (newest_first ts)
unfolding newest_first
newest_first-IsNewestFirst [] = tt
newest_first-IsNewestFirst (t ∷ ts) = place-IsNewestFirst t _ (newest_first-IsNewestFirst ts)

newest_first-All {ℓ} : (P : Task → Type ℓ) (ts : Table) → All P ts → All P (newest_first ts)
unfolding newest_first
newest_first-All P [] h = tt
newest_first-All P (t ∷ ts) (p, h) = All-place P t _ p (newest_first-All P ts h)

count-place :
    (q : Task → Bool) (t : Task) (us : List Task)
    → count q (place t us) ≡ (if q t then 1 else 0) + count q us
unfolding place
count-place q t [] = ground arith
count-place q t (u ∷ us) = ground (arith, count-place q t us)

pub count-newest_first : (q : Task → Bool) (ts : Table) → count q (newest_first ts) ≡ count q ts
unfolding newest_first
count-newest_first q [] = refl
count-newest_first q (t ∷ ts) =
    ground (arith, count-place q t (newest_first ts), count-newest_first q ts)

pub count-filter :
    (p q : Task → Bool) (ts : Table) → count q (filter p ts) ≡ count (λ t. p t && q t) ts
count-filter p q [] = refl
count-filter p q (t ∷ ts) = ground (arith, count-filter p q ts)

All-filter_self : (p : Task → Bool) (ts : Table) → All (λ t. p t ≡ true) (filter p ts)
All-filter_self p [] = tt
All-filter_self p (t ∷ ts) = ground (arith, All-filter_self p ts)

All-take {ℓ} : (P : Task → Type ℓ) (n : ℕ) (ts : Table) → All P ts → All P (take n ts)
All-take P zero ts h = tt
All-take P (suc n) [] h = tt
All-take P (suc n) (t ∷ ts) (p, h) = (p, All-take P n ts h)

take-IsNewestFirst : (n : ℕ) (ts : Table) → IsNewestFirst ts → IsNewestFirst (take n ts)
take-IsNewestFirst zero ts h = tt
take-IsNewestFirst (suc n) [] h = tt
take-IsNewestFirst (suc n) (t ∷ ts) (p, h) =
    (All-take (λ u. u.created_at ≤ t.created_at) n ts p, take-IsNewestFirst n ts h)

count-take_all :
    (q : Task → Bool) (n : ℕ) (ts : Table) → length ts ≤ n → count q (take n ts) ≡ count q ts
count-take_all q zero [] h = refl
count-take_all q zero (t ∷ ts) h = absurd (omega arith)
count-take_all q (suc n) [] h = refl
count-take_all q (suc n) (t ∷ ts) h = ground (arith, count-take_all q n ts)

pub length-newest_first : (ts : Table) → length (newest_first ts) ≡ length ts
length-newest_first ts =
    count_true (newest_first ts) ∙ count-newest_first (λ _. true) ts ∙ sym (count_true ts)
  where
    count_true : (us : Table) → length us ≡ count (λ _. true) us
    count_true [] = refl
    count_true (u ∷ us) = ap suc (count_true us)

module _ (contains : String → String → Bool) (text : Json → String) where
  -- list_tasks gives at most `limit` rows, newest first, each of which meets the filters.
  pub list_tasks_lem :
      (queue_name status task_name : Option String) (limit : ℕ) (ts : Table)
      → (length (list_tasks contains text queue_name status task_name limit ts) ≤ limit)
        × IsNewestFirst (list_tasks contains text queue_name status task_name limit ts)
        × All
            (λ t. meets contains text (list_filters queue_name status task_name) t ≡ true)
            (list_tasks contains text queue_name status task_name limit ts)
  unfolding list_tasks
  list_tasks_lem queue_name status task_name limit ts =
      let p : Task → Bool = meets contains text (list_filters queue_name status task_name) in
      let us = newest_first (filter p ts) in
      (
        length-take-le limit us,
        take-IsNewestFirst limit us (newest_first-IsNewestFirst (filter p ts)),
        All-take (λ t. p t ≡ true) limit us
            (newest_first-All (λ t. p t ≡ true) (filter p ts) (All-filter_self p ts)),
      )

  -- If no more than `limit` rows meet the filters, list_tasks gives all of these: it has as many
  -- rows with any further property `q` as the rows of the table that meet the filters have.
  pub list_tasks_complete :
      (queue_name status task_name : Option String) (limit : ℕ) (q : Task → Bool) (ts : Table)
      → count (meets contains text (list_filters queue_name status task_name)) ts ≤ limit
      → count q (list_tasks contains text queue_name status task_name limit ts)
        ≡ count (λ t. meets contains text (list_filters queue_name status task_name) t && q t) ts
  unfolding list_tasks
  list_tasks_complete queue_name status task_name limit q ts few =
      let p : Task → Bool = meets contains text (list_filters queue_name status task_name) in
      count-take_all q limit (newest_first (filter p ts))
        (rw (length-newest_first, length-filter) few)
      ∙ count-newest_first q (filter p ts)
      ∙ count-filter p q ts

  -- delete_tasks answers how many rows it removed; no row that is left meets the filters, and the
  -- rows left have any property `q` as often as the rows of the table that do not meet the
  -- filters.
  pub delete_tasks_lem :
      (f : Filters) (q : Task → Bool) (ts : Table)
      → ((delete_tasks contains text f ts).0 + length (delete_tasks contains text f ts).1
          ≡ length ts)
        × All (λ t. meets contains text f t ≡ false) (delete_tasks contains text f ts).1
        × (count q (delete_tasks contains text f ts).1
            ≡ count (λ t. not (meets contains text f t) && q t) ts)
  unfolding delete_tasks
  delete_tasks_lem f q ts =
      (split ts, kept ts, count-filter (λ t. not (meets contains text f t)) q ts)
    where
      split :
          (us : Table)
          → count (meets contains text f) us
              + length (filter (λ t. not (meets contains text f t)) us)
            ≡ length us
      split [] = omega arith
      split (u ∷ us) = ground (arith, split us)

      kept :
          (us : Table)
          → All
              (λ t. meets contains text f t ≡ false)
              (filter (λ t. not (meets contains text f t)) us)
      kept [] = tt
      kept (u ∷ us) = ground (arith, kept us)
