-- ===== src/Storage/Queries/Inclusion.antt =====
-- How many rows list_tasks gives, and that it gives no row twice.
use lapinq.Prelude.{
  ℕ, zero, suc, ◌≤◌, ◌≡◌, refl, ◌∙◌, String, Bool, ◌&&◌, Option, [], ◌∷◌, arith, leb, if◌then◌else◌,
}
use lapinq.Prelude.Lists.{length, take, count, filter, length-filter}
use lapinq.Json.{Json}
use lapinq.Storage.Task.{Task, Table}
use lapinq.Storage.Queries.{meets, newest_first, list_filters, list_tasks}
use lapinq.Storage.Queries.Listing.{count-newest_first, count-filter, length-newest_first}

abbrev pub min : ℕ → ℕ → ℕ
min a b = if leb a b then a else b

length-take : (n : ℕ) (ts : Table) → length (take n ts) ≡ min n (length ts)
length-take zero ts = ground arith
length-take (suc n) [] = ground arith
length-take (suc n) (t ∷ ts) = ground (arith, length-take n ts)

count-take_le : (q : Task → Bool) (n : ℕ) (ts : Table) → count q (take n ts) ≤ count q ts
count-take_le q zero ts = omega arith
count-take_le q (suc n) [] = omega arith
count-take_le q (suc n) (t ∷ ts) = ground (arith, count-take_le q n ts)

module _ (contains : String → String → Bool) (text : Json → String) where
  pub length-list_tasks :
      (queue_name status task_name : Option String) (limit : ℕ) (ts : Table)
      → length (list_tasks contains text queue_name status task_name limit ts)
        ≡ min limit (count (meets contains text (list_filters queue_name status task_name)) ts)
  unfolding list_tasks
  length-list_tasks queue_name status task_name limit ts =
      let p : Task → Bool = meets contains text (list_filters queue_name status task_name) in
      length-take limit (newest_first (filter p ts))
      ∙ (rw (length-newest_first, length-filter) refl)

  pub count-list_tasks :
      (queue_name status task_name : Option String) (limit : ℕ) (q : Task → Bool) (ts : Table)
      → count q (list_tasks contains text queue_name status task_name limit ts)
        ≤ count (λ t. meets contains text (list_filters queue_name status task_name) t && q t) ts
  unfolding list_tasks
  count-list_tasks queue_name status task_name limit q ts =
      let p : Task → Bool = meets contains text (list_filters queue_name status task_name) in
      omega (
        arith,
        count-take_le q limit (newest_first (filter p ts)),
        count-newest_first q (filter p ts),
        count-filter p q ts,
      )
