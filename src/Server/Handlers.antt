-- ===== src/Server/Handlers.antt =====
-- The handlers of python/lapinq/server.py for one task: get_task, get_task_result, cancel_task,
-- requeue_task and update_progress_endpoint.
pub mod Bounds
use lapinq.Prelude.{
  ℕ, zero, suc, ◌*◌, String, Bool, true, false, Option, none, some, List, ltb, leb, if◌then◌else◌,
}
use lapinq.Prelude.Int.{ℤ, pos, negsuc}
use lapinq.Json.{Json, null, bool, int, float, str, obj, Fields}
use lapinq.Storage.Task.{
  Status, completed, failed, Double, number, nan, infinity, minus_infinity, Task, Table,
}
use lapinq.Storage.Finish.{cancel_task, update_progress}
use lapinq.Storage.Retry.{requeue_task}
use lapinq.Storage.Queries.{TaskResult, get_task, get_task_result}
use lapinq.Server.Enqueueing.{in_millionths}
use lapinq.Server.Remaining.{task_response}

-- An error with its status code, an exception, or an answer with status 200: a text under "status", a
-- whole task, the dictionary of get_task_result, or that the task is not finished.
pub data Answer : Type 0 where
  failure : (code : ℕ) → String → Answer
  crash : Answer
  done : String → Answer
  task_is : Task → Answer
  result_is : TaskResult → Answer
  unfinished : Status → Answer

abbrev pub task_or_crash : Option Task → Answer
task_or_crash none = crash
task_or_crash (some t) = task_is t

-- `task_id` is _parse_uuid of the path's part, and `writes_nan` is whether JSONResponse writes a NaN.
unfoldable pub get_task_handler : Bool → ℕ → Option ℕ → Table → Answer
unfolding get_task task_response
get_task_handler writes_nan now none ts = failure 400 "invalid task id"
get_task_handler writes_nan now (some task_id) ts = elim (get_task task_id ts) [
  | none ↦ failure 404 "task not found"
  | some t ↦ task_or_crash (task_response writes_nan now t)
]

-- result["status"] not in ("completed", "failed")
abbrev pub answer_of : TaskResult → Answer
answer_of r = elim r.status [
  | completed ↦ result_is r
  | failed ↦ result_is r
  | other ↦ unfinished r.status
]

unfoldable pub get_task_result_handler : Option ℕ → Table → Answer
unfolding get_task_result
get_task_result_handler none ts = failure 400 "invalid task id"
get_task_result_handler (some task_id) ts = elim (get_task_result task_id ts) [
  | none ↦ failure 404 "task not found"
  | some r ↦ answer_of r
]

abbrev pub said : String → String → Bool × Table → Answer × Table
said yes_text no_text (true, ts) = (done yes_text, ts)
said yes_text no_text (false, ts) = (failure 404 no_text, ts)

unfoldable pub cancel_task_handler : ℕ → Option ℕ → Table → Answer × Table
unfolding cancel_task
cancel_task_handler now none ts = (failure 400 "invalid task id", ts)
cancel_task_handler now (some task_id) ts =
    said "cancelled" "task not found or not pending" (cancel_task now task_id ts)

unfoldable pub requeue_task_handler : ℕ → Option ℕ → Table → Answer × Table
unfolding requeue_task
requeue_task_handler now none ts = (failure 400 "invalid task id", ts)
requeue_task_handler now (some task_id) ts =
    said "requeued" "task not found or not failed" (requeue_task now task_id ts)

-- What Python reads a value of the body as: a value of JSON, or one of the literals NaN, Infinity and
-- -Infinity, which it reads too.
pub data Value : Type 0 where
  json : Json → Value
  literal : Double → Value

-- What the handler reads of a body: it is no dictionary, or it has body.get("progress") and
-- body.get("message").
pub data ProgressBody : Type 0 where
  no_dictionary : ProgressBody
  values : (progress message : Value) → ProgressBody

-- float(progress), for a progress that is an int, a float or a bool.
abbrev pub progress_of : Value → Option Double
progress_of (json (bool b)) = some (number (if b then pos 1_000_000 else pos 0))
progress_of (json (int n)) = some (number (in_millionths n))
progress_of (json (float x)) = some (number x)
progress_of (json j) = none
progress_of (literal d) = some d

-- not (progress < 0 or progress > 100), in millionths: no comparison with NaN holds.
abbrev pub in_percent : Double → Bool
in_percent (number (negsuc n)) = false
in_percent (number (pos n)) = leb n 100_000_000
in_percent nan = true
in_percent infinity = false
in_percent minus_infinity = false

-- The driver takes the message as a text or None.
abbrev pub set_progress : ℕ → Double → Value → Table → Answer × Table
set_progress task_id progress (json null) ts = (done "ok", update_progress task_id progress none ts)
set_progress task_id progress (json (str text)) ts =
    (done "ok", update_progress task_id progress (some text) ts)
set_progress task_id progress _ ts = (crash, ts)

abbrev pub checked_progress : ℕ → Option Double → Value → Table → Answer × Table
checked_progress task_id none message ts = (failure 400 "progress is required (0-100)", ts)
checked_progress task_id (some progress) message ts =
    if in_percent progress
    then set_progress task_id progress message ts
    else (failure 400 "progress must be between 0 and 100", ts)

-- `none` is a body that is no JSON.
unfoldable pub update_progress_handler : Option ℕ → Option ProgressBody → Table → Answer × Table
update_progress_handler none body ts = (failure 400 "invalid task id", ts)
update_progress_handler (some task_id) none ts = (failure 400 "invalid JSON body", ts)
update_progress_handler (some task_id) (some no_dictionary) ts = (crash, ts)
update_progress_handler (some task_id) (some (values progress message)) ts =
    checked_progress task_id (progress_of progress) message ts
