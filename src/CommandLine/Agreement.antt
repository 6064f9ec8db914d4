-- ===== src/CommandLine/Agreement.antt =====
-- The command `lapinq task` and the HTTP API do the same to the table.
use lapinq.Prelude.{ℕ, ◌≡◌, Bool, true, false, not, Option, none, some}
use lapinq.Json.{Json}
use lapinq.Storage.Task.{Task, Table}
use lapinq.Storage.Queries.{get_task}
use lapinq.Server.Remaining.Answering.{is_answered}
use lapinq.Server.Handlers.{Answer, failure, crash}
use lapinq.CommandLine.{Exit}

-- The command's exit code is 1 exactly when the handler refuses, and else 0.
abbrev pub Agrees : Exit → Answer → Type 0
Agrees e (failure code error) = e.code ≡ 1
Agrees e answer = e.code ≡ 0

abbrev pub is_crash : Answer → Bool
is_crash crash = true
is_crash answer = false

-- The task is there and cannot be answered with.
abbrev pub is_unanswerable : Bool → Option Task → Bool
is_unanswerable writes_nan none = false
is_unanswerable writes_nan (some t) = not (is_answered writes_nan t)

abbrev pub looked_up : Option ℕ → Table → Option Task
looked_up none ts = none
looked_up (some task_id) ts = get_task task_id ts
