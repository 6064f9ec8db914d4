-- ===== src/Storage/Queries/Counts.antt =====
-- `queue_stats`: each queue that has a task is counted once, under its own name.
use lapinq.Prelude.{
  ◌+◌, String, ◌≡◌, refl, sym, ap, subst, ◌≢◌, ◌⊎◌, inl, inr, Bool, true, false, ◌||◌, List, [],
  ◌∷◌, arith, map, str_eq, eq_iff, Bool-cases,
}
use lapinq.Prelude.Lists.{All, All-map, any, count}
use lapinq.Storage.Task.{expired, Table}
use lapinq.Storage.Queries.{count_in, stats_of, place_name, queue_names, queue_stats}

-- The columns of a row of queue_stats add up, with the expired tasks, which no column counts, to
-- the tasks of its queue.
pub stats_of-total :
    (ts : Table) (q : String)
    → (stats_of ts q).pending
        + (stats_of ts q).running
        + (stats_of ts q).completed
        + (stats_of ts q).failed
        + (stats_of ts q).cancelled
        + count_in q expired ts
      ≡ count (λ t. str_eq t.queue_name q) ts
unfolding stats_of
stats_of-total [] q = refl
stats_of-total (t ∷ ts) q = ground (arith, stats_of-total ts q)

-- An order of texts, such as a collation that tells different texts apart.
pub record IsOrder (le : String → String → Bool) : Type 0 where
  pub total : (a b : String) → (le a b ≡ true) ⊎ (le b a ≡ true)
  pub antisym : (a b : String) → le a b ≡ true → le b a ≡ true → a ≡ b
  pub trans : (a b c : String) → le a b ≡ true → le b c ≡ true → le a c ≡ true

different : (q r : String) → str_eq q r ≡ false → r ≢ q
different q r h e = ground (arith, eq_iff q r, sym e)

module _ (le : String → String → Bool) (order : IsOrder le) where
  -- Each name stands before those after it, and is none of them.
  abbrev pub IsStrictlySorted : List String → Type 0
  IsStrictlySorted [] = Unit
  IsStrictlySorted (q ∷ qs) = All (λ r. (le q r ≡ true) × (r ≢ q)) qs × IsStrictlySorted qs

  All-place_name {ℓ} :
      (P : String → Type ℓ) (q : String) (rs : List String)
      → P q
      → All P rs
      → All P (place_name le q rs)
  unfolding place_name
  All-place_name P q [] p h = (p, tt)
  All-place_name P q (r ∷ rs) p h = ground (arith, All-place_name P q rs p h.1)

  place_name-IsStrictlySorted :
      (q : String) (rs : List String) → IsStrictlySorted rs → IsStrictlySorted (place_name le q rs)
  unfolding place_name
  place_name-IsStrictlySorted q [] s = (tt, tt)
  place_name-IsStrictlySorted q (r ∷ rs) (h, s) = elim (Bool-cases (str_eq q r)) [
    | inl same ↦ rw same (h, s)
    | inr other ↦ elim (Bool-cases (le q r)) [
      | inl before ↦
          rw (other, before)
            (
              (
                (before, different q r other),
                All-map (λ v. (le r v ≡ true) × (v ≢ r)) (λ v. (le q v ≡ true) × (v ≢ q)) rs
                    (λ v k. (
                      order.trans q r v before k.0,
                      λ e.
                          different q r other
                            (order.antisym r q (subst (λ x. le r x ≡ true) e k.0) before),
                    ))
                    h,
              ),
              (h, s),
            )
      | inr after ↦
          rw (other, after)
            (
              All-place_name (λ v. (le r v ≡ true) × (v ≢ r)) q rs
                  (ground (arith, order.total q r), λ e. different q r other (sym e)) h,
              place_name-IsStrictlySorted q rs s,
            )
    ]
  ]

  queue_names-IsStrictlySorted : (ts : Table) → IsStrictlySorted (queue_names le ts)
  unfolding queue_names
  queue_names-IsStrictlySorted [] = tt
  queue_names-IsStrictlySorted (t ∷ ts) =
      place_name-IsStrictlySorted t.queue_name _ (queue_names-IsStrictlySorted ts)

  any-place_name :
      (q r : String) (rs : List String)
      → any (str_eq q) (place_name le r rs) ≡ (str_eq q r || any (str_eq q) rs)
  unfolding place_name
  any-place_name q r [] = refl
  any-place_name q r (v ∷ rs) =
      ground (arith, any-place_name q r rs, eq_iff r v, eq_iff q r, eq_iff q v)

  any-queue_names :
      (q : String) (ts : Table)
      → any (str_eq q) (queue_names le ts) ≡ any (λ t. str_eq q t.queue_name) ts
  unfolding queue_names
  any-queue_names q [] = refl
  any-queue_names q (t ∷ ts) =
      ground (arith, any-place_name q t.queue_name (queue_names le ts), any-queue_names q ts)

  names-stats :
      (ts : Table) (qs : List String) → map (λ r. r.queue_name) (map (stats_of ts) qs) ≡ qs
  unfolding stats_of
  names-stats ts [] = refl
  names-stats ts (q ∷ qs) = ap (λ rs. q ∷ rs) (names-stats ts qs)

  -- If the collation is a total order, queue_stats lists the queues in the order of their names,
  -- none twice, and a queue is listed exactly if the table has a task of it.
  pub queue_stats-lists :
      (q : String) (ts : Table)
      → IsStrictlySorted (map (λ r. r.queue_name) (queue_stats le ts))
        × (any (str_eq q) (map (λ r. r.queue_name) (queue_stats le ts))
            ≡ any (λ t. str_eq q t.queue_name) ts)
  unfolding queue_stats
  queue_stats-lists q ts =
      rw (names-stats ts (queue_names le ts))
        (queue_names-IsStrictlySorted ts, any-queue_names q ts)
