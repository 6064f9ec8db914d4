-- ===== src/Worker/Execute.antt =====
-- execute_task and execute_task_inline of python/lapinq/execute.py, with execute_task_inline of
-- src/lib.rs, which the latter tries first. The user's modules and functions are arguments.
pub mod Repeats
use Prim.Native.Char.{Char, code}
use Prim.Native.String
use lapinq.Prelude.{
  ℕ, ◌≡◌, String, Bool, true, false, ◌&&◌, Option, none, some, List, [], ◌∷◌, ◌==◌, if◌then◌else◌,
  leb, ◌||◌,
}
use lapinq.Prelude.Int.{ℤ}
use lapinq.Json.{Json}
use lapinq.Storage.Task.{Task, Table, find_task}
use lapinq.Storage.Retry.{manual_retry}

-- The part after the last full stop, if there is one.
unfoldable pub after_last_dot : String → Option String
after_last_dot String.[] = none
after_last_dot (String.◌∷◌ c s) = elim (after_last_dot s) [
  | some part ↦ some part
  | none ↦ if code c == b'.' then some s else none
]

-- task_name.rsplit(".", 1)[-1]
unfoldable pub func_name : String → String
unfolding after_last_dot
func_name task_name = elim (after_last_dot task_name) [ some part ↦ part | none ↦ task_name ]

-- What importing the module, finding the function and calling it come to in a process of its own:
-- `returns` has str(result), and `raises` stands for any exception but RetryError.
pub data UserRun : Type 0 where
  missing raises : UserRun
  returns : String → UserRun
  retries : ℤ → Option String → UserRun

-- The run with what it wrote on the standard output and, logging included, on the standard error.
pub record Ran : Type 0 where
  pub run : UserRun
  pub printed : String
  pub logged : String

pub record Exit : Type 0 where
  pub code : ℕ
  pub stdout : String
  pub stderr : String

-- r.message or "manual retry"
abbrev pub retry_message : Option String → String
retry_message none = "manual retry"
retry_message (some String.[]) = "manual retry"
retry_message (some text) = text

abbrev pub exit_of : ℕ → String → Ran → Exit
exit_of code printed ran = record { code = code; stdout = printed; stderr = ran.logged }

-- From the end of the user's function to the exit of the process.
unfoldable pub leave : ℕ → ℕ → Ran → Table → Exit × Table
leave now task_id ran ts = elim ran.run [
  | missing ↦ (exit_of 1 ran.printed ran, ts)
  | raises ↦ (exit_of 1 ran.printed ran, ts)
  | returns text ↦ (exit_of 0 (String.◌++◌ ran.printed (String.◌++◌ text "\n")) ran, ts)
  | retries countdown message ↦
      (exit_of 0 ran.printed ran, manual_retry now task_id (retry_message message) countdown ts)
]

-- `call` runs a function, given its module, its name and the two JSON values; `now` is that of the
-- UPDATE.
unfoldable pub execute_task :
    (String → String → Json → Json → Ran) → String → ℕ → ℕ → Table → Exit × Table
unfolding func_name leave
execute_task call not_found now task_id ts = elim (find_task task_id ts) [
  | none ↦ (record { code = 1; stdout = ""; stderr = not_found }, ts)
  | some t ↦ leave now task_id (call t.module_path (func_name t.task_name) t.args t.kwargs) ts
]

-- How one call of the function ends; `retries` is RetryError.
pub data Called {ℓ} (A : Type ℓ) : Type ℓ where
  gives : A → Called A
  type_error : String → Called A
  retry_error : ℤ → Option String → Called A
  other_error : String → Called A

-- The function that a task names: the import fails, it has no such function, or it is found, as a
-- coroutine function or not.
pub data Lookup : Type 0 where
  import_fails no_function : String → Lookup
  found : (is_coroutine : Bool) → Lookup

-- `calls n` is how the n-th call ends, and the result says how often the function was called.
-- `through_json` is json.loads(json.dumps(value)), which may be a TypeError.
module _ {ℓ} {A : Type ℓ} (through_json : A → Option A) (calls : ℕ → Called A) where
  -- The executor in Rust, and what `execute_task_inline` does about its errors.
  pub with_rust : Called A × ℕ
  with_rust = elim (calls 0) [
    | gives v ↦ elim (through_json v) [ some w ↦ (gives w, 1) | none ↦ (calls 1, 2) ]
    | type_error e ↦ (calls 1, 2)
    | retry_error countdown message ↦ (retry_error countdown message, 1)
    | other_error e ↦ (calls 1, 2)
  ]

  pub execute_task_inline : (has_rust : Bool) → Lookup → Called A × ℕ
  unfolding with_rust
  execute_task_inline has_rust (import_fails e) = (other_error e, 0)
  execute_task_inline has_rust (no_function e) = (other_error e, 0)
  execute_task_inline has_rust (found true) = (calls 0, 1)
  execute_task_inline true (found false) = with_rust
  execute_task_inline false (found false) = (calls 0, 1)
