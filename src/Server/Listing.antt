-- ===== src/Server/Listing.antt =====
-- The handlers list_tasks, list_failed_tasks and delete_tasks_endpoint of python/lapinq/server.py, with
-- _parse_int_param.
pub mod Replies
use lapinq.Prelude.{ℕ, ◌^◌, String, Bool, Option, none, some, List, ltb, if◌then◌else◌}
use Prim.Native.String
use lapinq.Prelude.Int.{ℤ, pos, negsuc}
use lapinq.Json.{Json}
use lapinq.Storage.Task.{Task, Table}
use lapinq.Storage.Queries.{Filters, list_tasks, list_failed_tasks, delete_tasks}
use lapinq.Dashboard.{tasks_table_html}
use lapinq.Server.Remaining.{task_responses}
use lapinq.Scheduler.Cron.{Text, parse_int}

-- A list of tasks, a page, a count of deleted ones, an error with its status code, or an exception.
pub data Listed : Type 0 where
  tasks : List Task → Listed
  html_page : (html : String) → Listed
  deleted : ℕ → Listed
  refused : (code : ℕ) → String → Listed
  crashed : Listed

-- int(value), the default for a parameter that is absent, `none` for the reply with status 400
unfoldable pub parse_int_param : Option Text → ℕ → Option ℤ
unfolding parse_int
parse_int_param none default = some (pos default)
parse_int_param (some text) default = parse_int text

-- LIMIT $n, an int8: a negative or a larger one is an error.
abbrev pub limited : Option ℤ → (ℕ → Listed) → Listed
limited none answer = refused 400 "invalid limit"
limited (some (negsuc n)) answer = crashed
limited (some (pos n)) answer = if ltb n (2 ^ 63) then answer n else crashed

-- value or None
abbrev pub or_none : Option String → Option String
or_none (some String.[]) = none
or_none value = value

-- The query parameters.
pub record Params : Type 0 where
  pub queue : Option String
  pub status : Option String
  pub task_name : Option String
  pub args : Option String
  pub result : Option String
  pub error : Option String
  pub limit : Option Text

-- The tasks as JSON, or an exception of one of them.
abbrev pub tasks_or_crash : Option (List Task) → Listed
tasks_or_crash none = crashed
tasks_or_crash (some ts) = tasks ts

abbrev pub page_or_crash : Option String → Listed
page_or_crash none = crashed
page_or_crash (some html) = html_page html

-- ILIKE and the text of a JSONB value, and whether JSONResponse writes a NaN
module _ (contains : String → String → Bool) (text : Json → String) (writes_nan : Bool) where
  pub list_tasks_handler : ℕ → Params → Table → Listed
  unfolding parse_int_param list_tasks task_responses
  list_tasks_handler now p ts = limited (parse_int_param p.limit 50) (λ n.
      tasks_or_crash (
        task_responses writes_nan now (list_tasks contains text p.queue p.status p.task_name n ts)))

  pub list_failed_tasks_handler : ℕ → Params → Table → Listed
  unfolding parse_int_param list_failed_tasks task_responses
  list_failed_tasks_handler now p ts = limited (parse_int_param p.limit 50) (λ n.
      tasks_or_crash (task_responses writes_nan now (list_failed_tasks contains text p.queue n ts)))

module _ (contains : String → String → Bool) (text : Json → String) where
  -- tasks_html_endpoint, with str() of a JSON value and of an identifier; the table fails where
  -- _serialize_task does.
  pub tasks_html_handler : (Json → String) → (ℕ → String) → ℕ → Params → Table → Listed
  unfolding parse_int_param list_tasks tasks_table_html
  tasks_html_handler value_text id_text now p ts = limited (parse_int_param p.limit 20) (λ n.
      page_or_crash (
        tasks_table_html value_text id_text now
          (list_tasks contains text p.queue p.status p.task_name n ts)))

  abbrev pub delete_filters : Params → Filters
  delete_filters p = record {
    queue_name = or_none p.queue;
    status = or_none p.status;
    task_name = or_none p.task_name;
    args_search = or_none p.args;
    result_search = or_none p.result;
    error_search = or_none p.error;
  }

  pub delete_tasks_handler : Params → Table → Listed × Table
  unfolding delete_tasks
  delete_tasks_handler p ts =
      let (n, rest) = delete_tasks contains text (delete_filters p) ts in (deleted n, rest)
