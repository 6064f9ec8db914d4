-- ===== src/Storage/Batch.antt =====
-- Storage.enqueue_batch of python/lapinq/storage.py: one INSERT for each item, each on its own.
pub mod Progress
pub mod OneByOne
use lapinq.Prelude.{ℕ, String, Bool, true, Option, none, some, List, [], ◌∷◌, if◌then◌else◌}
use lapinq.Prelude.Int.{ℤ, pos}
use lapinq.Json.{Json, arr, nil, obj, end}
use lapinq.Storage.Task.{Task, Table, pending}
use lapinq.Storage.Enqueue.{
  not_null_violation, Result, ok, raise, ◌>>=◌, coalesce, is_zero_ttl, insert,
}

-- A key of an item is absent, or holds None, or holds a value.
pub data Given {ℓ} (A : Type ℓ) : Type ℓ where
  absent null : Given A
  value : A → Given A

-- item.get(key, default), as the parameter of a nullable column
abbrev pub get {ℓ} : {A : Type ℓ} → Given A → A → Option A
get absent d = some d
get null d = none
get (value a) d = some a

-- item.get(key)
abbrev pub get_none {ℓ} : {A : Type ℓ} → Given A → Option A
get_none (value a) = some a
get_none _ = none

-- NOT NULL
abbrev pub required {ℓ} : {A : Type ℓ} → Option A → Result A
required none = raise not_null_violation
required (some a) = ok a

-- An item with its task_name, which the handler has checked. JSONB columns hold Json.null for None.
pub record Item : Type 0 where
  pub task_name : String
  pub queue_name : Given String
  pub module_path : Given String
  pub args : Option Json
  pub kwargs : Option Json
  pub scheduled_at : Given ℕ
  pub max_retries : Given ℤ
  pub priority : Given ℤ
  pub ttl_seconds : Given ℤ
  pub metadata : Option Json
  pub retry_delay : Given ℤ
  pub retry_backoff : Given Bool
  pub webhook_url : Given String

unfoldable pub item_row : ℕ → ℕ → Item → Result Task
item_row id now t = do
  queue_name ← required (get t.queue_name "default")
  module_path ← required (get t.module_path "")
  max_retries ← required (get t.max_retries (pos 3))
  priority ← required (get t.priority (pos 0))
  ok (record {
    id = id;
    queue_name = queue_name;
    task_name = t.task_name;
    module_path = module_path;
    args = coalesce t.args (arr nil);
    kwargs = coalesce t.kwargs (obj end);
    status = pending;
    result = none;
    error = none;
    attempts = 0;
    max_retries = max_retries;
    priority = priority;
    created_at = now;
    scheduled_at = coalesce (get_none t.scheduled_at) now;
    started_at = none;
    completed_at = none;
    last_heartbeat = none;
    worker_id = none;
    ttl_seconds = get_none t.ttl_seconds;
    metadata = coalesce t.metadata (obj end);
    progress = none;
    progress_message = none;
    retry_delay = get_none t.retry_delay;
    retry_backoff = get t.retry_backoff true;
    webhook_url = get_none t.webhook_url;
  })

-- The INSERT of one item.
unfoldable pub insert_item : ℕ → ℕ → Item → Table → Result ℕ × Table
unfolding item_row insert
insert_item id now t ts = elim (item_row id now t) [
  | ok row ↦ insert row ts
  | raise e ↦ (raise e, ts)
]

abbrev pub prepend : ℕ → Result (List ℕ) → Result (List ℕ)
prepend id (ok ids) = ok (id ∷ ids)
prepend id (raise e) = raise e

-- The rest of the loop after one INSERT: an exception leaves it.
abbrev pub after_insert :
    (Table → Result (List ℕ) × Table) → Result ℕ × Table → Result (List ℕ) × Table
after_insert rest (ok id, ts) = let (ids, ts') = rest ts in (prepend id ids, ts')
after_insert rest (raise e, ts) = (raise e, ts)

-- Each item comes with the identifier and the instant of its statement.
unfoldable pub enqueue_batch : List (ℕ × ℕ × Item) → Table → Result (List ℕ) × Table
enqueue_batch [] ts = (ok [], ts)
enqueue_batch ((id, now, t) ∷ rest) ts =
    let skipped = enqueue_batch rest ts in
    if is_zero_ttl (get_none t.ttl_seconds)
    then skipped
    else after_insert (enqueue_batch rest) (insert_item id now t ts)
