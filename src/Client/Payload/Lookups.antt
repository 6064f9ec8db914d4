-- ===== src/Client/Payload/Lookups.antt =====
-- What the look-ups of the handler `enqueue` meet in the payload, and what its checks make of it.
use lapinq.Prelude.{
  ℕ, ◌≡◌, ◌≢◌, refl, String, Bool, true, false, Option, none, some, arith, if◌then◌else◌, ltb,
  str_eq,
}
use lapinq.Prelude.Int.{ℤ, pos, negsuc}
use lapinq.Json.{Json, null, bool, int, float, str, arr, nil, obj, Items, Fields, end, field}
use lapinq.Server.Enqueueing.{
  goes, get, Readers, as_float, as_metadata, as_instant, as_text_or_null, as_int4, as_bool_or_null,
  required,
}
use lapinq.Client.Payload.{default_to, Registered, optional, add_metadata, build_payload}

abbrev pub json_or {ℓ} : {A : Type ℓ} → Json → (A → Json) → Option A → Json
json_or d to_json none = d
json_or d to_json (some a) = to_json a

-- What a look-up meets in a dictionary with a key that may be left out.
get-optional {ℓ} :
    {A : Type ℓ} (key name : String) (to_json : A → Json) (o : Option A) (rest : Fields) (d : Json)
    → get key (optional name to_json o rest) d
      ≡ (if str_eq name key then json_or (get key rest d) to_json o else get key rest d)
unfolding get optional
get-optional key name to_json none rest d = ground arith
get-optional key name to_json (some a) rest d = refl

-- The metadata as they arrive: {} is not sent.
abbrev pub metadata_json : Option Fields → Json
metadata_json none = null
metadata_json (some end) = null
metadata_json (some metadata) = obj metadata

get-add_metadata :
    (key : String) (o : Option Fields) (rest : Fields) (d : Json)
    → str_eq "metadata" key ≡ false
    → get key (add_metadata o rest) d ≡ get key rest d
unfolding get add_metadata
get-add_metadata key none rest d n = refl
get-add_metadata key (some end) rest d n = refl
get-add_metadata key (some (field k v fields)) rest d n = ground (arith, n)

metadata-add_metadata :
    (o : Option Fields) (rest : Fields)
    → get "metadata" rest null ≡ null
    → get "metadata" (add_metadata o rest) null ≡ metadata_json o
unfolding get add_metadata
metadata-add_metadata none rest e = e
metadata-add_metadata (some end) rest e = e
metadata-add_metadata (some (field k v fields)) rest e = refl

module _ (r : Registered) (args : Items) (kwargs : Fields) where
  abbrev pub payload : Fields
  payload = build_payload r args kwargs

  pub got_task_name : get "task_name" payload null ≡ str r.task_name
  unfolding build_payload get
  got_task_name = refl

  pub got_queue_name : get "queue_name" payload (str "default") ≡ str r.queue_name
  unfolding build_payload get
  got_queue_name = refl

  pub got_args : get "args" payload (arr nil) ≡ arr args
  unfolding build_payload get
  got_args = refl

  pub got_kwargs : get "kwargs" payload (obj end) ≡ obj kwargs
  unfolding build_payload get
  got_kwargs = refl

  pub got_module_path : get "module_path" payload (str "") ≡ str r.module_path
  unfolding build_payload get
  got_module_path = refl

  pub got_scheduled_at : get "scheduled_at" payload null ≡ json_or null str r.options.scheduled_at
  unfolding build_payload get
  got_scheduled_at = simp (get-optional, get-add_metadata)

  pub got_max_retries :
      get "max_retries" payload (int (pos 3)) ≡ json_or (int (pos 3)) int r.options.max_retries
  unfolding build_payload get
  got_max_retries = simp (get-optional, get-add_metadata)

  pub got_ttl_seconds : get "ttl_seconds" payload null ≡ json_or null float r.effective_ttl
  unfolding build_payload get
  got_ttl_seconds = simp (get-optional, get-add_metadata)

  pub got_priority : get "priority" payload (int (pos 0)) ≡ int r.options.priority
  unfolding build_payload get
  got_priority = simp (get-optional, get-add_metadata)

  pub got_metadata : get "metadata" payload null ≡ metadata_json r.options.metadata
  unfolding build_payload get
  got_metadata = simp (get-optional, metadata-add_metadata)

  pub got_retry_delay : get "retry_delay" payload null ≡ json_or null float r.options.retry_delay
  unfolding build_payload get
  got_retry_delay = simp (get-optional, get-add_metadata)

  pub got_retry_backoff :
      get "retry_backoff" payload null ≡ json_or null bool r.options.retry_backoff
  unfolding build_payload get
  got_retry_backoff = simp (get-optional, get-add_metadata)

  pub got_webhook_url : get "webhook_url" payload null ≡ json_or null str r.options.webhook_url
  unfolding build_payload get
  got_webhook_url = simp (get-optional, get-add_metadata)

pub as_float-json_or :
    (readers : Readers) (e : String) (o : Option ℤ)
    → as_float readers e (json_or null float o) ≡ goes o
as_float-json_or readers e none = refl
as_float-json_or readers e (some x) = refl

pub as_bool-json_or : (o : Option Bool) → as_bool_or_null (json_or null bool o) ≡ goes o
as_bool-json_or none = refl
as_bool-json_or (some b) = refl

pub as_text-json_or : (o : Option String) → as_text_or_null (json_or null str o) ≡ goes o
as_text-json_or none = refl
as_text-json_or (some t) = refl

pub as_metadata-metadata_json :
    (o : Option Fields) → as_metadata (metadata_json o) ≡ goes (metadata_json o)
as_metadata-metadata_json none = refl
as_metadata-metadata_json (some end) = refl
as_metadata-metadata_json (some (field k v rest)) = refl

-- A whole number of 32 bits.
abbrev pub is_int4 : ℤ → Bool
is_int4 (pos n) = ltb n 2_147_483_648
is_int4 (negsuc n) = ltb n 2_147_483_648

pub as_int4-int : (z : ℤ) → is_int4 z ≡ true → as_int4 (int z) ≡ goes z
as_int4-int (pos n) h = ground arith
as_int4-int (negsuc n) h = ground arith

pub as_int4-json_or :
    (d : ℤ) (o : Option ℤ)
    → is_int4 (default_to o d) ≡ true
    → as_int4 (json_or (int d) int o) ≡ goes (default_to o d)
as_int4-json_or d none h = as_int4-int d h
as_int4-json_or d (some z) h = as_int4-int z h

-- datetime.fromisoformat of a text that may be left out: `some none` for one that is left out.
abbrev pub instants : Readers → Option String → Option (Option ℕ)
instants readers none = some none
instants readers (some text) = elim (readers.instant_of text) [
  | none ↦ none
  | some t ↦ some (some t)
]

pub as_instant-json_or :
    (readers : Readers) (o : Option String) (at : Option ℕ)
    → instants readers o ≡ some at
    → as_instant readers (json_or null str o) ≡ goes at
as_instant-json_or readers none at h = ground arith
as_instant-json_or readers (some text) at h = ground arith

pub required-str : (e t : String) → t ≢ "" → required e (str t) ≡ goes tt
required-str e String.[] n = absurd (n refl)
required-str e (String.◌∷◌ c t) n = refl
