-- ===== src/Server/Enqueueing.antt =====
-- The handler `enqueue` of python/lapinq/server.py: the checks of the request in their order, and the
-- call of Storage.enqueue.
pub mod Checks
pub mod Answers
use Prim.Native.String
use lapinq.Prelude.{
  ℕ, zero, suc, ◌*◌, ◌+◌, ◌≡◌, String, Bool, true, false, not, Option, none, some, List, [], ◌∷◌,
  ltb, leb, str_eq, if◌then◌else◌,
}
use lapinq.Prelude.Int.{ℤ, pos, negsuc}
use lapinq.Json.{Json, null, bool, int, float, str, arr, nil, obj, Fields, end, field, is_truthy}
use lapinq.Storage.Task.{Table}
use lapinq.Storage.Enqueue.{Result, ok, raise, Request, is_zero_ttl, enqueue}
use lapinq.Scheduler.Cron.{Text, parse_int}

-- The answer: 201 with the identifier, or with None for a task whose TTL is zero, an error with its
-- status code, or an exception, which the framework answers with 500.
pub data Reply : Type 0 where
  created : Option ℕ → Reply
  refused : (code : ℕ) → String → Reply
  crashed : Reply

-- A check that stops the handler, or a value to go on with.
pub data Checked {ℓ} (A : Type ℓ) : Type ℓ where
  stops : Reply → Checked A
  goes : A → Checked A

infixl 5 ◌>>=◌
abbrev pub ◌>>=◌ {ℓ κ} : {A : Type ℓ} {B : Type κ} → Checked A → (A → Checked B) → Checked B
stops r >>= f = stops r
goes a >>= f = f a

-- body.get(key, default)
unfoldable pub get : String → Fields → Json → Json
get key end default = default
get key (field name value rest) default =
    let later = get key rest default in if str_eq name key then value else later

-- The numbers and texts that the handler leaves to Python and PostgreSQL: float(text) in millionths,
-- datetime.fromisoformat as an instant, and len(json.dumps(body)); `max_payload` is MAX_PAYLOAD_SIZE.
pub record Readers : Type 0 where
  pub float_of : String → Option ℤ
  pub instant_of : String → Option ℕ
  pub size_of : Json → ℕ
  pub max_payload : ℕ

-- The header `content-length`, and the body, `none` if it is no JSON.
pub record Post : Type 0 where
  pub content_length : Option Text
  pub body : Option Json

-- int(content_length) > MAX_PAYLOAD_SIZE
abbrev pub exceeds : ℕ → Option ℤ → Bool
exceeds max none = false
exceeds max (some (negsuc n)) = false
exceeds max (some (pos n)) = ltb max n

unfoldable pub length_of : Option Text → Option ℤ
unfolding parse_int
length_of none = none
length_of (some text) = parse_int text

unfoldable pub check_size : Readers → Post → Checked Json
unfolding length_of
check_size readers post =
    if exceeds readers.max_payload (length_of post.content_length)
    then stops (refused 413 "payload too large")
    else elim post.body [
      | none ↦ stops (refused 400 "invalid JSON body")
      | some body ↦
          if ltb readers.max_payload (readers.size_of body)
          then stops (refused 413 "payload too large")
          else goes body
    ]

-- A body that is no dictionary has no `get`.
abbrev pub as_fields : Json → Checked Fields
as_fields (obj fields) = goes fields
as_fields _ = stops crashed

abbrev pub million : ℕ
million = 1_000_000

-- float(n), in millionths
abbrev pub in_millionths : ℤ → ℤ
in_millionths (pos n) = pos (n * million)
in_millionths (negsuc n) = negsuc (n * million + 999_999)

abbrev pub or_refuse {ℓ} : {A : Type ℓ} → ℕ → String → Option A → Checked A
or_refuse code error none = stops (refused code error)
or_refuse code error (some a) = goes a

-- None stays None, and anything else goes through float().
abbrev pub as_float : Readers → String → Json → Checked (Option ℤ)
as_float readers error null = goes none
as_float readers error (bool b) = goes (some (if b then pos million else pos 0))
as_float readers error (int n) = goes (some (in_millionths n))
as_float readers error (float x) = goes (some x)
as_float readers error (str text) = elim (readers.float_of text) [
  | none ↦ stops (refused 400 error)
  | some x ↦ goes (some x)
]
as_float readers error _ = stops (refused 400 error)

abbrev pub as_metadata : Json → Checked Json
as_metadata null = goes null
as_metadata (obj fields) = goes (obj fields)
as_metadata _ = stops (refused 400 "metadata must be a JSON object")

abbrev pub as_instant : Readers → Json → Checked (Option ℕ)
as_instant readers null = goes none
as_instant readers (str text) = elim (readers.instant_of text) [
  | none ↦ stops (refused 400 "invalid scheduled_at format")
  | some t ↦ goes (some t)
]
as_instant readers _ = stops (refused 400 "invalid scheduled_at format")

abbrev pub required : String → Json → Checked (Unit {0})
required error value = if is_truthy value then goes tt else stops (refused 400 error)

-- The driver refuses a parameter of another type than the column's, and a null where there may be none.
abbrev pub as_text : Json → Checked String
as_text (str text) = goes text
as_text _ = stops crashed

abbrev pub as_text_or_null : Json → Checked (Option String)
as_text_or_null null = goes none
as_text_or_null (str text) = goes (some text)
as_text_or_null _ = stops crashed

-- A whole number of 32 bits; True and False are 1 and 0.
abbrev pub as_int4 : Json → Checked ℤ
as_int4 (int (pos n)) = if ltb n 2_147_483_648 then goes (pos n) else stops crashed
as_int4 (int (negsuc n)) = if ltb n 2_147_483_648 then goes (negsuc n) else stops crashed
as_int4 (bool b) = goes (if b then pos 1 else pos 0)
as_int4 _ = stops crashed

abbrev pub as_bool_or_null : Json → Checked (Option Bool)
as_bool_or_null null = goes none
as_bool_or_null (bool b) = goes (some b)
as_bool_or_null _ = stops crashed

-- The checks of the handler, the test of the TTL in Storage.enqueue, and the driver's checks, in the order of the columns.
unfoldable pub request_of : Readers → Fields → Checked Request
unfolding get
request_of readers body = do
  ttl_seconds ← as_float readers "invalid ttl_seconds" (get "ttl_seconds" body null)
  metadata ← as_metadata (get "metadata" body null)
  retry_delay ← as_float readers "invalid retry_delay" (get "retry_delay" body null)
  named ← required "task_name is required" (get "task_name" body null)
  placed ← required "module_path is required" (get "module_path" body (str ""))
  scheduled_at ← as_instant readers (get "scheduled_at" body null)
  alive ← if is_zero_ttl ttl_seconds then stops (created none) else goes (tt {0})
  task_name ← as_text (get "task_name" body null)
  queue_name ← as_text (get "queue_name" body (str "default"))
  module_path ← as_text (get "module_path" body (str ""))
  max_retries ← as_int4 (get "max_retries" body (int (pos 3)))
  priority ← as_int4 (get "priority" body (int (pos 0)))
  retry_backoff ← as_bool_or_null (get "retry_backoff" body null)
  webhook_url ← as_text_or_null (get "webhook_url" body null)
  goes (record {
    task_name = task_name;
    queue_name = queue_name;
    module_path = module_path;
    args = get "args" body (arr nil);
    kwargs = get "kwargs" body (obj end);
    scheduled_at = scheduled_at;
    max_retries = max_retries;
    priority = priority;
    ttl_seconds = ttl_seconds;
    metadata = metadata;
    retry_delay = retry_delay;
    retry_backoff = retry_backoff;
    webhook_url = webhook_url;
  })

unfoldable pub check_post : Readers → Post → Checked Request
unfolding check_size request_of
check_post readers post = do
  json ← check_size readers post
  body ← as_fields json
  request_of readers body

abbrev pub reply_of : Result (Option ℕ) × Table → Reply × Table
reply_of (ok id, ts) = (created id, ts)
reply_of (raise e, ts) = (crashed, ts)

-- `id` and `now` are what the database draws for the INSERT.
unfoldable pub enqueue_handler : Readers → ℕ → ℕ → Post → Table → Reply × Table
unfolding check_post
enqueue_handler readers id now post ts = elim (check_post readers post) [
  | stops r ↦ (r, ts)
  | goes request ↦ reply_of (enqueue id now request ts)
]
