-- ===== src/Server/Batching.antt =====
-- The handler `enqueue_batch` of python/lapinq/server.py, and Storage.enqueue_batch on dictionaries as
-- they come from the request: what the database driver refuses among their values.
pub mod Effects
pub mod Stopping
pub mod Answers
use Prim.Native.String
use lapinq.Prelude.{
  ℕ, zero, suc, ◌+◌, String, Bool, true, false, ◌⊎◌, inl, inr, Option, none, some, List, [], ◌∷◌,
  ltb, str_eq, if◌then◌else◌,
}
use lapinq.Prelude.Int.{ℤ, pos}
use lapinq.Prelude.Lists.{length}
use lapinq.Json.{
  Json, null, bool, int, float, str, arr, obj, Items, nil, cons, Fields, end, field, is_truthy,
}
use lapinq.Storage.Task.{Table}
use lapinq.Storage.Enqueue.{Result, ok, raise}
use lapinq.Storage.Batch.{Given, absent, value, Item, insert_item}
use lapinq.Storage.Batch
use lapinq.Server.Enqueueing.{
  in_millionths, Checked, stops, goes, get, as_int4, as_text, as_bool_or_null,
}

-- 201 with the identifiers and their count, an error with its status code, or an exception.
pub data Reply : Type 0 where
  created_all : List ℕ → Reply
  refused : (code : ℕ) → String → Reply
  crashed : Reply

-- The value under a key, if the key is there.
unfoldable pub look : String → Fields → Option Json
look key end = none
look key (field name found rest) =
    let later = look key rest in if str_eq name key then some found else later

-- item.get(key) == 0: so are 0, 0.0 and False.
abbrev pub equals_zero : Option Json → Bool
equals_zero (some (int (pos zero))) = true
equals_zero (some (float (pos zero))) = true
equals_zero (some (bool false)) = true
equals_zero _ = false

abbrev pub passed {ℓ} : {A : Type ℓ} → Checked A → Option A
passed (stops r) = none
passed (goes a) = some a

-- A parameter that may be absent or None, by what the driver takes for its column.
abbrev pub given_by {ℓ} : {A : Type ℓ} → (Json → Option A) → Option Json → Option (Given A)
given_by parse none = some absent
given_by parse (some null) = some Batch.null
given_by parse (some j) = elim (parse j) [ none ↦ none | some a ↦ some (value a) ]

-- A timestamp must be a datetime, which no JSON value is.
abbrev pub no_instant : Json → Option ℕ
no_instant j = none

-- A DOUBLE PRECISION, in millionths, takes an int, a float or a bool.
abbrev pub number_of : Json → Option ℤ
number_of (bool b) = some (if b then pos 1_000_000 else pos 0)
number_of (int n) = some (in_millionths n)
number_of (float x) = some x
number_of _ = none

abbrev pub flag_of : Json → Option Bool
flag_of (bool b) = some b
flag_of _ = none

infixl 5 ◌>>=◌
abbrev pub ◌>>=◌ {ℓ κ} : {A : Type ℓ} {B : Type κ} → Option A → (A → Option B) → Option B
none >>= f = none
some a >>= f = f a

-- The parameters of the INSERT for one dictionary, or an error of the driver.
unfoldable pub item_of : Fields → Option Item
unfolding look get
item_of t = do
  task_name ← passed (as_text (get "task_name" t null))
  queue_name ← given_by (λ j. passed (as_text j)) (look "queue_name" t)
  module_path ← given_by (λ j. passed (as_text j)) (look "module_path" t)
  scheduled_at ← given_by no_instant (look "scheduled_at" t)
  max_retries ← given_by (λ j. passed (as_int4 j)) (look "max_retries" t)
  priority ← given_by (λ j. passed (as_int4 j)) (look "priority" t)
  ttl_seconds ← given_by number_of (look "ttl_seconds" t)
  retry_delay ← given_by number_of (look "retry_delay" t)
  retry_backoff ← given_by flag_of (look "retry_backoff" t)
  webhook_url ← given_by (λ j. passed (as_text j)) (look "webhook_url" t)
  some (record {
    task_name = task_name;
    queue_name = queue_name;
    module_path = module_path;
    args = look "args" t;
    kwargs = look "kwargs" t;
    scheduled_at = scheduled_at;
    max_retries = max_retries;
    priority = priority;
    ttl_seconds = ttl_seconds;
    metadata = look "metadata" t;
    retry_delay = retry_delay;
    retry_backoff = retry_backoff;
    webhook_url = webhook_url;
  })

-- The rest of the loop after one INSERT; `none` is an exception.
abbrev pub after_item :
    (Table → Option (List ℕ) × Table) → Result ℕ × Table → Option (List ℕ) × Table
after_item rest (ok id, ts) =
    let (ids, ts') = rest ts in (elim ids [ none ↦ none | some is ↦ some (id ∷ is) ], ts')
after_item rest (raise e, ts) = (none, ts)

-- Storage.enqueue_batch; `draw` gives the identifier and the instant of each statement.
unfoldable pub enqueue_dicts : (ℕ → ℕ × ℕ) → ℕ → List Fields → Table → Option (List ℕ) × Table
unfolding item_of
enqueue_dicts draw n [] ts = (some [], ts)
enqueue_dicts draw n (t ∷ rest) ts =
    let skipped = enqueue_dicts draw (suc n) rest ts in
    if equals_zero (look "ttl_seconds" t) then skipped else elim (item_of t) [
      | none ↦ (none, ts)
      | some item ↦
          after_item (enqueue_dicts draw (suc n) rest) (insert_item (draw n).0 (draw n).1 item ts)
    ]

abbrev pub elements : Items → List Json
elements nil = []
elements (cons j rest) = j ∷ elements rest

-- A reply in the way of the loop over the items, or the dictionaries.
abbrev pub with_dict : Fields → Reply ⊎ List Fields → Reply ⊎ List Fields
with_dict t (inl r) = inl r
with_dict t (inr ts) = inr (t ∷ ts)

unfoldable pub check_names : List Json → Reply ⊎ List Fields
unfolding get
check_names [] = inr []
check_names (obj t ∷ rest) =
    let checked = check_names rest in
    if is_truthy (get "task_name" t null)
    then with_dict t checked
    else inl (refused 400 "each task must have a task_name")
check_names (_ ∷ rest) = inl crashed

abbrev pub batch_reply : Option (List ℕ) × Table → Reply × Table
batch_reply (none, ts) = (crashed, ts)
batch_reply (some ids, ts) = (created_all ids, ts)

abbrev pub batch_limit : ℕ
batch_limit = 1000

-- `none` is a body that is no JSON.
unfoldable pub enqueue_batch_handler : (ℕ → ℕ × ℕ) → Option Json → Table → Reply × Table
unfolding check_names enqueue_dicts
enqueue_batch_handler draw none ts = (refused 400 "invalid JSON body", ts)
enqueue_batch_handler draw (some (arr items)) ts =
    if ltb batch_limit (length (elements items))
    then (refused 400 "batch limit is 1000 tasks", ts)
    else elim (check_names (elements items)) [
      | inl r ↦ (r, ts)
      | inr dicts ↦ batch_reply (enqueue_dicts draw 0 dicts ts)
    ]
enqueue_batch_handler draw (some _) ts = (refused 400 "body must be a JSON array", ts)
