-- ===== src/Storage/Batch/OneByOne.antt =====
-- A batch against calls of Storage.enqueue, one for each task.
use lapinq.Prelude.{
  ℕ, ◌≡◌, refl, ap, true, Option, none, some, List, [], ◌∷◌, map, Bool-cases, inl, inr,
}
use lapinq.Json.{arr, nil, obj, end, or_else}
use lapinq.Storage.Task.{Table}
use lapinq.Storage.Enqueue.{
  Request, Result, ok, raise, coalesce, is_zero_ttl, new_row, insert, returning, enqueue,
}
use lapinq.Storage.Batch.{
  Given, absent, value, get_none, Item, item_row, insert_item, prepend, after_insert, enqueue_batch,
}

abbrev pub given {ℓ} : {A : Type ℓ} → Option A → Given A
given none = absent
given (some a) = value a

-- The dictionary that asks enqueue_batch for the task that enqueue makes of a request.
abbrev pub item_for : Request → Item
item_for r = record {
  task_name = r.task_name;
  queue_name = value r.queue_name;
  module_path = value r.module_path;
  args = some (or_else r.args (arr nil));
  kwargs = some (or_else r.kwargs (obj end));
  scheduled_at = given r.scheduled_at;
  max_retries = value r.max_retries;
  priority = value r.priority;
  ttl_seconds = given r.ttl_seconds;
  metadata = some (or_else r.metadata (obj end));
  retry_delay = given r.retry_delay;
  retry_backoff = value (coalesce r.retry_backoff true);
  webhook_url = given r.webhook_url;
}

-- A call of enqueue and then the others; an exception ends them, and None gives no identifier.
abbrev pub after_enqueue :
    (Table → Result (List ℕ) × Table) → Result (Option ℕ) × Table → Result (List ℕ) × Table
after_enqueue rest (ok none, ts) = rest ts
after_enqueue rest (ok (some id), ts) = let (ids, ts') = rest ts in (prepend id ids, ts')
after_enqueue rest (raise e, ts) = (raise e, ts)

pub enqueue_each : List (ℕ × ℕ × Request) → Table → Result (List ℕ) × Table
enqueue_each [] ts = (ok [], ts)
enqueue_each ((id, now, r) ∷ rest) ts = after_enqueue (enqueue_each rest) (enqueue id now r ts)

get_none-given {ℓ} : {A : Type ℓ} (o : Option A) → get_none (given o) ≡ o
get_none-given none = refl
get_none-given (some a) = refl

insert_item-item_for :
    (id now : ℕ) (r : Request) (ts : Table)
    → insert_item id now (item_for r) ts ≡ insert (new_row id now r) ts
unfolding insert_item item_row new_row
insert_item-item_for id now r ts =
    rw
      (
        get_none-given r.scheduled_at,
        get_none-given r.ttl_seconds,
        get_none-given r.retry_delay,
        get_none-given r.webhook_url,
      )
      refl

after_enqueue-returning :
    (rest : Table → Result (List ℕ) × Table) (p : Result ℕ × Table)
    → after_enqueue rest (returning p) ≡ after_insert rest p
after_enqueue-returning rest (ok id, ts) = refl
after_enqueue-returning rest (raise e, ts) = refl

after_insert-cong :
    (f g : Table → Result (List ℕ) × Table) (p : Result ℕ × Table)
    → ((ts : Table) → f ts ≡ g ts)
    → after_insert f p ≡ after_insert g p
after_insert-cong f g (ok id, ts) h = ap (λ q. (prepend id q.0, q.1)) (h ts)
after_insert-cong f g (raise e, ts) h = refl

abbrev pub as_items : List (ℕ × ℕ × Request) → List (ℕ × ℕ × Item)
as_items = map (λ e. (e.0, e.1, item_for e.2))

-- enqueue_batch on the dictionaries of some requests, with their defaults filled in, does what
-- calls of enqueue for these requests do, one after another: the same table, and the same
-- identifiers, without those of a zero TTL, or the same exception.
pub enqueue_batch-enqueue_each :
    (entries : List (ℕ × ℕ × Request)) (ts : Table)
    → enqueue_batch (as_items entries) ts ≡ enqueue_each entries ts
unfolding enqueue_batch enqueue_each enqueue
enqueue_batch-enqueue_each [] ts = refl
enqueue_batch-enqueue_each ((id, now, r) ∷ rest) ts =
    elim (Bool-cases (is_zero_ttl r.ttl_seconds)) [
      | inl z ↦ rw (get_none-given r.ttl_seconds, z) (enqueue_batch-enqueue_each rest ts)
      | inr z ↦
          rw
            (
              get_none-given r.ttl_seconds,
              z,
              insert_item-item_for id now r ts,
              after_enqueue-returning (enqueue_each rest) (insert (new_row id now r) ts),
            )
            (after_insert-cong (enqueue_batch (as_items rest)) (enqueue_each rest)
              (insert (new_row id now r) ts) (enqueue_batch-enqueue_each rest))
    ]
