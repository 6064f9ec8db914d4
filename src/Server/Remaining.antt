-- ===== src/Server/Remaining.antt =====
-- The dictionary of a task that python/lapinq/server.py answers with, and the time in it that is left to the
-- task: _serialize_task and _format_ttl.
pub mod Answering
use lapinq.Prelude.{
  ℕ, suc, ◌+◌, ◌-◌, ◌/◌, ◌%◌, String, Bool, true, List, Option, none, some, [], ◌∷◌, ltb, leb,
  if◌then◌else◌,
}
use lapinq.Storage.Task.{Task, Double, number}
use lapinq.Prelude.Int.{ℤ, pos, negsuc}
use lapinq.Prelude.Texts.{joined, decimal}

abbrev million : ℕ
million = 1_000_000

-- datetime.max, in microseconds after datetime.min, from which instants are counted here
abbrev pub last_instant : ℕ
last_instant = 315_537_897_599_999_999

-- created_at + timedelta(seconds=ttl_seconds), which raises an OverflowError outside of the range of datetime
abbrev pub deadline : ℕ → ℤ → Option ℕ
deadline created_at (pos ttl) =
    if ltb last_instant (created_at + ttl) then none else some (created_at + ttl)
deadline created_at (negsuc n) = if ltb n created_at then some (created_at - suc n) else none

abbrev pub two_units : ℕ → String → ℕ → String → String
two_units a unit b smaller = joined (decimal a ∷ unit ∷ " " ∷ decimal b ∷ smaller ∷ [])

-- Of the remaining microseconds, which are 0 from the deadline on.
abbrev pub remaining_text : ℕ → String
remaining_text remaining =
    let s = remaining / million in
    if leb remaining 0
    then "expired"
    else if leb 86_400 s
    then two_units (s / 86_400) "d" (s % 86_400 / 3600) "h"
    else if leb 3600 s
    then two_units (s / 3600) "h" (s % 3600 / 60) "m"
    else if leb 60 s
    then two_units (s / 60) "m" (s % 60) "s"
    else joined (decimal s ∷ "s" ∷ [])

-- `none` is the OverflowError; created_at is NOT NULL.
unfoldable pub format_ttl : ℕ → ℕ → Option ℤ → Option String
format_ttl now created_at none = some "∞"
format_ttl now created_at (some ttl) = elim (deadline created_at ttl) [
  | none ↦ none
  | some d ↦ some (remaining_text (d - now))
]

-- Whether JSONResponse can write the progress; `writes_nan` is whether it takes a float that is no number.
abbrev pub is_written : Bool → Option Double → Bool
is_written writes_nan none = true
is_written writes_nan (some (number n)) = true
is_written writes_nan (some d) = writes_nan

-- JSONResponse(_serialize_task(task)), or an exception; the task stands for its dictionary.
unfoldable pub task_response : Bool → ℕ → Task → Option Task
unfolding format_ttl
task_response writes_nan now t = elim (format_ttl now t.created_at t.ttl_seconds) [
  | none ↦ none
  | some ttl_remaining ↦ if is_written writes_nan t.progress then some t else none
]

abbrev pub both_responses : Option Task → Option (List Task) → Option (List Task)
both_responses none rest = none
both_responses (some t) none = none
both_responses (some t) (some ts) = some (t ∷ ts)

unfoldable pub task_responses : Bool → ℕ → List Task → Option (List Task)
unfolding task_response
task_responses writes_nan now [] = some []
task_responses writes_nan now (t ∷ ts) =
    both_responses (task_response writes_nan now t) (task_responses writes_nan now ts)
