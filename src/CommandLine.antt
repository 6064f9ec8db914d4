-- ===== src/CommandLine.antt =====
-- The command `lapinq task` of python/lapinq/__main__.py: _run_task, against the handlers of the server.
pub mod Agreement
mod Examples
use lapinq.Prelude.{
  ℕ, String, Bool, true, false, Option, none, some, List, [], ◌∷◌, if◌then◌else◌, ltb, ◌^◌,
}
use lapinq.Prelude.Int.{ℤ, pos, negsuc}
use lapinq.Json.{Json, Fields, obj, end}
use lapinq.Storage.Task.{Task, Table}
use lapinq.Storage.Finish.{cancel_task}
use lapinq.Storage.Retry.{requeue_task}
use lapinq.Storage.Queries.{get_task, list_tasks}

-- The arguments after `lapinq task`. A task_id is `none` where uuid.UUID raises a ValueError.
pub data Command : Type 0 where
  list : (queue status : Option String) (limit : ℤ) (json : Bool) → Command
  get : (task_id : Option ℕ) (json : Bool) → Command
  cancel : (task_id : Option ℕ) → Command
  requeue : (task_id : Option ℕ) → Command

-- What is printed: tasks or a task, as JSON or as text, or a message.
pub data Printed : Type 0 where
  tasks_json tasks_text : List Task → Printed
  task_json task_text : Task → Printed
  message : String → Printed
  nothing : Printed

-- The end of the process: output and exit code; an exception ends it with the code 1 and a trace.
pub record Exit : Type 0 where
  pub output : Printed
  pub errors : Printed
  pub code : ℕ

abbrev pub succeeds : Printed → Exit
succeeds output = record { output = output; errors = nothing; code = 0 }

abbrev pub fails : String → Exit
fails error = record { output = nothing; errors = message error; code = 1 }

abbrev pub traced : Exit
traced = record { output = nothing; errors = nothing; code = 1 }

abbrev pub print_tasks : Bool → List Task → Exit
print_tasks true ts = succeeds (tasks_json ts)
print_tasks false [] = succeeds (message "No tasks found.")
print_tasks false ts = succeeds (tasks_text ts)

abbrev pub print_found : Bool → Option Task → Exit
print_found json none = fails "not found"
print_found json (some t) = succeeds (if json then task_json t else task_text t)

-- if ok, with the messages less the identifier
abbrev pub answered : String → String → Bool × Table → Exit × Table
answered yes_text no_text (true, ts) = (succeeds (message yes_text), ts)
answered yes_text no_text (false, ts) = (fails no_text, ts)

module _ (contains : String → String → Bool) (text : Json → String) where
  -- `now` is the instant of the statement.
  pub run_task : ℕ → Command → Table → Exit × Table
  unfolding list_tasks get_task cancel_task requeue_task
  run_task now (list queue status (negsuc n) json) ts = (traced, ts)
  run_task now (list queue status (pos n) json) ts =
      if ltb n (2 ^ 63)
      then (print_tasks json (list_tasks contains text queue status none n ts), ts)
      else (traced, ts)
  run_task now (get none json) ts = (traced, ts)
  run_task now (get (some task_id) json) ts = (print_found json (get_task task_id ts), ts)
  run_task now (cancel none) ts = (traced, ts)
  run_task now (cancel (some task_id)) ts =
      answered "Cancelled task" "not found or not pending" (cancel_task now task_id ts)
  run_task now (requeue none) ts = (traced, ts)
  run_task now (requeue (some task_id)) ts =
      answered "Requeued task" "not found or not failed" (requeue_task now task_id ts)
