-- ===== src/Storage/Queries.antt =====
-- The reads of `Storage` in python/lapinq/storage.py (get_task, get_task_result, list_tasks,
-- list_failed_tasks, queue_stats) and delete_tasks, which shares the filters of list_tasks.
pub mod Listing
pub mod Inclusion
pub mod Counts
pub mod Collation
use lapinq.Prelude.{
  ℕ, String, Bool, true, false, not, ◌&&◌, Option, none, some, List, [], ◌∷◌, ltb, if◌then◌else◌,
  str_eq,
}
use lapinq.Prelude.Lists.{count, filter, take}
use lapinq.Json.{Json}
use lapinq.Storage.Task.{Status, same_status, status_name, Task, Table, find_task}

unfoldable pub get_task : ℕ → Table → Option Task
get_task = find_task

-- The dictionary that get_task_result returns.
pub record TaskResult : Type 0 where
  pub id : ℕ
  pub status : Status
  pub result : Option String
  pub error : Option String
  pub completed_at : Option ℕ

abbrev pub result_of : Task → TaskResult
result_of t = record {
  id = t.id;
  status = t.status;
  result = t.result;
  error = t.error;
  completed_at = t.completed_at;
}

unfoldable pub get_task_result : ℕ → Table → Option TaskResult
get_task_result task_id ts = elim (find_task task_id ts) [
  | none ↦ none
  | some t ↦ some (result_of t)
]

-- The filters of list_tasks and delete_tasks; one that is None or "" is left out.
pub record Filters : Type 0 where
  pub queue_name : Option String
  pub status : Option String
  pub task_name : Option String
  pub args_search : Option String
  pub result_search : Option String
  pub error_search : Option String

-- A condition of the WHERE clause, there only if the filter is given.
abbrev pub when_given : Option String → (String → Bool) → Bool
when_given none test = true
when_given (some String.[]) test = true
when_given (some s) test = test s

-- A test of a nullable column: NULL does not pass.
abbrev pub on_column : Option String → (String → Bool) → Bool
on_column none test = false
on_column (some v) test = test v

-- `contains v s` is PostgreSQL's `v ILIKE '%s%'`, and `text` the text of a JSONB value.
module _ (contains : String → String → Bool) (text : Json → String) where
  unfoldable pub meets : Filters → Task → Bool
  meets f t =
      when_given f.queue_name (λ s. str_eq t.queue_name s)
      && when_given f.status (λ s. str_eq (status_name t.status) s)
      && when_given f.task_name (λ s. contains t.task_name s)
      && when_given f.args_search (λ s. contains (text t.args) s)
      && when_given f.result_search (λ s. on_column t.result (λ v. contains v s))
      && when_given f.error_search (λ s. on_column t.error (λ v. contains v s))

  -- The number of rows deleted, and the rows that are left.
  unfoldable pub delete_tasks : Filters → Table → ℕ × Table
  unfolding meets
  delete_tasks f ts = (count (meets f) ts, filter (λ t. not (meets f t)) ts)

-- ORDER BY created_at DESC, by insertion; of equals, the one inserted first comes first.
pub place : Task → List Task → List Task
place t [] = t ∷ []
place t (u ∷ us) =
    let rest = place t us in if ltb t.created_at u.created_at then u ∷ rest else t ∷ u ∷ us

pub newest_first : Table → List Task
unfolding place
newest_first [] = []
newest_first (t ∷ ts) = place t (newest_first ts)

-- The filters of list_tasks alone.
abbrev pub list_filters : Option String → Option String → Option String → Filters
list_filters queue_name status task_name = record {
  queue_name = queue_name;
  status = status;
  task_name = task_name;
  args_search = none;
  result_search = none;
  error_search = none;
}

module _ (contains : String → String → Bool) (text : Json → String) where
  unfoldable pub list_tasks : Option String → Option String → Option String → ℕ → Table → List Task
  unfolding newest_first meets
  list_tasks queue_name status task_name limit ts =
      take limit
        (newest_first (filter (meets contains text (list_filters queue_name status task_name)) ts))

  unfoldable pub list_failed_tasks : Option String → ℕ → Table → List Task
  unfolding list_tasks
  list_failed_tasks queue_name limit = list_tasks queue_name (some "failed") none limit

-- A row of queue_stats.
pub record QueueStats : Type 0 where
  pub queue_name : String
  pub pending : ℕ
  pub running : ℕ
  pub completed : ℕ
  pub failed : ℕ
  pub cancelled : ℕ

-- COUNT(*) FILTER (WHERE status = s), within one queue
abbrev pub count_in : String → Status → Table → ℕ
count_in q s = count (λ t. str_eq t.queue_name q && same_status t.status s)

pub stats_of : Table → String → QueueStats
stats_of ts q = record {
  queue_name = q;
  pending = count_in q Status.pending ts;
  running = count_in q Status.running ts;
  completed = count_in q Status.completed ts;
  failed = count_in q Status.failed ts;
  cancelled = count_in q Status.cancelled ts;
}

-- A name put at its place, unless it is there already. `le` is the order of the column's collation.
module _ (le : String → String → Bool) where
  pub place_name : String → List String → List String
  place_name q [] = q ∷ []
  place_name q (r ∷ rs) =
      let rest = place_name q rs in
      if str_eq q r then r ∷ rs else if le q r then q ∷ r ∷ rs else r ∷ rest

  -- GROUP BY queue_name ORDER BY queue_name
  unfoldable pub queue_names : Table → List String
  unfolding place_name
  queue_names [] = []
  queue_names (t ∷ ts) = place_name t.queue_name (queue_names ts)

  unfoldable pub queue_stats : Table → List QueueStats
  unfolding queue_names stats_of
  queue_stats ts = lapinq.Prelude.map (stats_of ts) (queue_names ts)
