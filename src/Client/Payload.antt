-- ===== src/Client/Payload.antt =====
-- TaskQueue.task, _register and _build_payload of python/lapinq/client.py, up to the request that the
-- function `queue` sends. Floats are millionths; AsyncTaskQueue has the same methods.
pub mod Lookups
pub mod Sending
use Prim.Native.String
use lapinq.Prelude.{String, Bool, Option, none, some}
use lapinq.Prelude.Int.{ℤ, pos}
use lapinq.Json.{Json, bool, int, float, str, arr, obj, Items, Fields, end, field}

pub record TaskQueue : Type 0 where
  pub queue_name : String
  pub default_ttl_seconds : Option ℤ

-- func.__name__, func.__qualname__ and the name of inspect.getmodule(func)
pub record Function : Type 0 where
  pub name : String
  pub qualname : String
  pub module_name : Option String

-- The arguments of the decorator `task`.
pub record Options : Type 0 where
  pub name : Option String
  pub queue_name : Option String
  pub scheduled_at : Option String
  pub max_retries : Option ℤ
  pub priority : ℤ
  pub ttl_seconds : Option ℤ
  pub metadata : Option Fields
  pub retry_delay : Option ℤ
  pub retry_backoff : Option Bool
  pub webhook_url : Option String

-- `@queue.task` without arguments
abbrev pub bare_options : TaskQueue → Options
bare_options q = record {
  name = none;
  queue_name = some q.queue_name;
  scheduled_at = none;
  max_retries = none;
  priority = pos 0;
  ttl_seconds = none;
  metadata = none;
  retry_delay = none;
  retry_backoff = none;
  webhook_url = none;
}

-- a if a is not None else b
abbrev pub default_to {ℓ} : {A : Type ℓ} → Option A → A → A
default_to none b = b
default_to (some a) b = a

abbrev pub either_of {ℓ} : {A : Type ℓ} → Option A → Option A → Option A
either_of none b = b
either_of (some a) b = some a

-- The qualified name and the module, or ValueError.
abbrev pub resolve_module : Function → Option (String × String)
resolve_module f = elim f.module_name [
  | none ↦ none
  | some m ↦ some (String.◌++◌ m (String.◌++◌ "." f.qualname), m)
]

-- if value is not None: payload[key] = value
pub optional {ℓ} : {A : Type ℓ} → String → (A → Json) → Option A → Fields → Fields
optional key to_json none rest = rest
optional key to_json (some a) rest = field key (to_json a) rest

-- if metadata: payload["metadata"] = metadata, where {} is false
pub add_metadata : Option Fields → Fields → Fields
add_metadata none rest = rest
add_metadata (some end) rest = rest
add_metadata (some metadata) rest = field "metadata" (obj metadata) rest

-- What `queue` keeps of _register.
pub record Registered : Type 0 where
  pub task_name : String
  pub qualified_name : String
  pub module_path : String
  pub queue_name : String
  pub effective_ttl : Option ℤ
  pub options : Options

unfoldable pub register : TaskQueue → Options → Function → Option Registered
register q o f = elim (resolve_module f) [
  | none ↦ none
  | some (qualified, path) ↦ some (record {
    task_name = default_to o.name f.name;
    qualified_name = qualified;
    module_path = path;
    queue_name = default_to o.queue_name q.queue_name;
    effective_ttl = either_of o.ttl_seconds q.default_ttl_seconds;
    options = o;
  })
]

pub build_payload : Registered → Items → Fields → Fields
unfolding optional add_metadata
build_payload r args kwargs = field "task_name" (str r.task_name) (
    field "queue_name" (str r.queue_name) (
      field "args" (arr args) (
        field "kwargs" (obj kwargs) (
          field "module_path" (str r.module_path) (
            optional "scheduled_at" str r.options.scheduled_at (
              optional "max_retries" int r.options.max_retries (
                optional "ttl_seconds" float r.effective_ttl (
                  field "priority" (int r.options.priority) (
                    add_metadata r.options.metadata (
                      optional "retry_delay" float r.options.retry_delay (
                        optional "retry_backoff" bool r.options.retry_backoff
                          (optional "webhook_url" str r.options.webhook_url end))))))))))))
