-- ===== src/Server/Page.antt =====
-- What the web socket of the dashboard shows: the filters and the page in `_send` of ws_endpoint of
-- python/lapinq/server.py.
pub mod Lookup
use Prim.Native.Char.{code}
use lapinq.Prelude.{
  ℕ, String, Bool, true, false, ◌&&◌, ◌||◌, Option, none, some, List, [], ◌∷◌, map, ltb, ◌==◌,
  str_eq, if◌then◌else◌,
}
use lapinq.Prelude.Lists.{filter, take}
use lapinq.Json.{Json, null, str, is_truthy}
use lapinq.Storage.Task.{Task, Table}
use lapinq.Storage.Queries.{QueueStats, get_task, list_tasks, place_name, queue_stats}
use lapinq.Dashboard.{◌>>=◌, queue_cards_html, tasks_table_html}

-- str.lower, str.strip, uuid.UUID, str of an identifier and of a JSON value; PostgreSQL's ILIKE, the
-- text of a JSONB value, and the collation of queue names.
pub record Texts : Type 0 where
  pub lower : String → String
  pub strip : String → String
  pub uuid_of : String → Option ℕ
  pub id_text : ℕ → String
  pub value_text : Json → String
  pub ilike : String → String → Bool
  pub column_text : Json → String
  pub collates : String → String → Bool

-- The filters, as they came from the client; null is None.
pub record Filters : Type 0 where
  pub queue : Json
  pub id : Json
  pub status : Json
  pub task_name : Json
  pub args : Json
  pub result : Json
  pub error : Json

abbrev pub no_filters : Filters
no_filters = record {
  queue = null;
  id = null;
  status = null;
  task_name = null;
  args = null;
  result = null;
  error = null;
}

-- What the program finds at a step: the instant in microseconds, the tables or a storage that raises, and
-- the flag `shutting_down`.
pub record Sight : Type 0 where
  pub now : ℕ
  pub tasks : Table
  pub is_reachable : Bool
  pub shutting_down : Bool

-- s in t
abbrev pub starts : String → String → Bool
starts String.[] t = true
starts (String.◌∷◌ c s) String.[] = false
starts (String.◌∷◌ c s) (String.◌∷◌ d t) = code c == code d && starts s t

abbrev pub occurs : String → String → Bool
occurs s String.[] = starts s ""
occurs s (String.◌∷◌ c t) = starts s (String.◌∷◌ c t) || occurs s t

-- The order of code points, in which Python sorts texts
abbrev pub sorts_before : String → String → Bool
sorts_before String.[] t = true
sorts_before (String.◌∷◌ c s) String.[] = false
sorts_before (String.◌∷◌ c s) (String.◌∷◌ d t) =
    ltb (code c) (code d) || code c == code d && sorts_before s t

-- sorted({...})
unfoldable pub sorted_set : List String → List String
sorted_set [] = []
sorted_set (s ∷ ss) = place_name sorts_before s (sorted_set ss)

-- A row of the database, or one that _serialize_task has written already, whose instants are texts: for
-- these `isoformat` raises an AttributeError.
pub data Row : Type 0 where
  plain written : Task → Row

abbrev pub serialize_task : Row → Option Task
serialize_task (plain t) = some t
serialize_task (written t) = none

abbrev pub serialize_all : List Row → Option (List Task)
serialize_all [] = some []
serialize_all (r ∷ rs) = do t ← serialize_task r; ts ← serialize_all rs; some (t ∷ ts)

-- A parameter of the type text: another value is refused by the driver.
abbrev pub text_parameter : Json → Option (Option String)
text_parameter null = some none
text_parameter (str s) = some (some s)
text_parameter j = none

module _ (texts : Texts) where
  -- f"%{task_name}%" takes any value.
  abbrev pub name_parameter : Json → Option String
  name_parameter null = none
  name_parameter (str s) = some s
  name_parameter j = some (texts.value_text j)

  -- A search for a value that has no `lower` raises an AttributeError.
  abbrev pub searched : Json → (Task → String) → List Task → Option (List Task)
  searched null column ts = some ts
  searched (str s) column ts =
      some (filter (λ t. occurs (texts.lower s) (texts.lower (column t))) ts)
  searched j column ts = none

  -- str(None) is "None".
  abbrev pub column_or_none : Option String → String
  column_or_none none = "None"
  column_or_none (some s) = s

  abbrev pub found_rows : Option Task → List Row
  found_rows none = []
  found_rows (some t) = written t ∷ []

  -- One row by its whole identifier, or those of the newest that have the text in theirs.
  abbrev pub rows_by_id : Table → String → Option ℕ → List Row
  rows_by_id ts raw (some task_id) = found_rows (get_task task_id ts)
  rows_by_id ts raw none = map plain (
      filter (λ t. occurs raw (texts.id_text t.id))
        (list_tasks texts.ilike texts.column_text none none none 20 ts))

  -- A value that has no `strip` raises an AttributeError.
  pub selected_by_id : Table → Json → Option (List Row)
  selected_by_id ts (str s) = some (rows_by_id ts (texts.strip s) (texts.uuid_of (texts.strip s)))
  selected_by_id ts j = none

  pub selected_by_filters : Table → Filters → Option (List Row)
  unfolding list_tasks
  selected_by_filters ts f = do
    queue ← text_parameter f.queue
    status ← text_parameter f.status
    let newest =
        list_tasks texts.ilike texts.column_text queue status (name_parameter f.task_name) 200 ts
    by_args ← searched f.args (λ t. texts.value_text t.args) newest
    by_result ← searched f.result (λ t. column_or_none t.result) by_args
    by_error ← searched f.error (λ t. column_or_none t.error) by_result
    some (map plain (take 20 by_error))

  pub selected : Table → Filters → Option (List Row)
  unfolding selected_by_id selected_by_filters
  selected ts f = if is_truthy f.id then selected_by_id ts f.id else selected_by_filters ts f

  abbrev pub is_named : Json → QueueStats → Bool
  is_named (str s) q = str_eq q.queue_name s
  is_named j q = false

  abbrev pub shown_stats : Json → List QueueStats → List QueueStats
  shown_stats queue stats = if is_truthy queue then filter (is_named queue) stats else stats

  -- The cards and the table; `none` is an exception.
  unfoldable pub page : Sight → Filters → Option (String × String)
  unfolding selected queue_cards_html tasks_table_html
  page g f =
      if g.is_reachable
      then (do
        rows ← selected g.tasks f
        ts ← serialize_all rows
        table ← tasks_table_html texts.value_text texts.id_text g.now ts
        some (queue_cards_html (shown_stats f.queue (queue_stats texts.collates g.tasks)), table))
      else none
