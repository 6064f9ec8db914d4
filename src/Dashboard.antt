-- ===== src/Dashboard.antt =====
-- The fragments that python/lapinq/dashboard.py makes of the queues and of the tasks: _queue_cards_html,
-- _tasks_table_html with _fmt and _args_str, over the tasks
-- that _serialize_task of server.py prepares; `none` is an exception. White space between the elements is left out.
pub mod Verbatim
pub mod Failing
mod Examples
use Prim.Native.Char.{Char}
use Prim.Native.String
use lapinq.Prelude.{
  ℕ, zero, suc, ◌+◌, ◌/◌, ◌%◌, String, Bool, true, false, Option, none, some, List, [], ◌∷◌, ◌++◌,
  ltb, if◌then◌else◌,
}
use lapinq.Prelude.Texts.{joined, listed, decimal, prefix, size}
use lapinq.Json.{Json, str, arr, obj, Items, nil, cons, Fields, end, field, is_truthy}
use lapinq.Storage.Task.{Status, pending, failed, expired, status_name, Task}
use lapinq.Storage.Queries.{QueueStats}
use lapinq.Server.Remaining.{format_ttl}

abbrev pub count_html : String → ℕ → String → String
count_html class n label = joined (
    "<span class=\""
    ∷ class
    ∷ "\"><span class=\"num\">"
    ∷ decimal n
    ∷ "</span> "
    ∷ label
    ∷ "</span>"
    ∷ [])

pub card_html : QueueStats → String
card_html q = joined (
    "<div class=\"card\"><div class=\"card-name\">"
    ∷ q.queue_name
    ∷ "</div><div class=\"card-count\">"
    ∷ decimal (q.pending + q.running)
    ∷ " active</div><div class=\"card-stats\">"
    ∷ count_html "c-pending" q.pending "pending"
    ∷ count_html "c-running" q.running "running"
    ∷ count_html "c-done" q.completed "done"
    ∷ count_html "c-failed" q.failed "failed"
    ∷ count_html "c-cancelled" q.cancelled "cancelled"
    ∷ "</div></div>"
    ∷ [])

abbrev pub cards_html : List QueueStats → String
cards_html [] = ""
cards_html (q ∷ qs) = String.◌++◌ (card_html q) (cards_html qs)

unfoldable pub queue_cards_html : List QueueStats → String
unfolding card_html
queue_cards_html [] = "<div class=\"empty\" style=\"grid-column:1/-1\">No queues yet</div>"
queue_cards_html stats = cards_html stats

pub fmt : ℕ → Option String → String
fmt maxlen none = ""
fmt maxlen (some s) = if ltb maxlen (size s) then String.◌++◌ (prefix maxlen s) "..." else s

-- value or ""
abbrev pub or_blank : Option String → String
or_blank none = ""
or_blank (some s) = s

-- The statuses with a badge of their own
abbrev pub badge : Status → String
badge expired = "badge-pending"
badge s = String.◌++◌ "badge-" (status_name s)

abbrev pub action_html : String → String → String → String
action_html class call label =
    joined ("<button class=\"" ∷ class ∷ "\" onclick=\"" ∷ call ∷ "\">" ∷ label ∷ "</button>" ∷ [])

abbrev pub confirm : String → String → String
confirm id action = joined ("confirmAction('" ∷ id ∷ "','" ∷ action ∷ "')" ∷ [])

abbrev pub buttons : Status → String → String
buttons pending id = action_html "btn-action danger" (confirm id "cancel") "Cancel"
buttons failed id = action_html "btn-action" (confirm id "requeue") "Requeue"
buttons _ id = ""

abbrev pub table_of : String → String
table_of rows = joined (
    "<table><thead><tr><th>ID</th><th>Task</th><th>Queue</th><th>Args</th><th>Result</th><th>Error</th><th>Status</th><th>TTL</th><th>Actions</th></tr></thead><tbody>"
    ∷ rows ∷ "</tbody></table>" ∷ [])

infixl 5 ◌>>=◌
abbrev pub ◌>>=◌ {ℓ κ} : {A : Type ℓ} {B : Type κ} → Option A → (A → Option B) → Option B
none >>= f = none
some a >>= f = f a

-- Python's str() of a JSON value and the text of an identifier. `now` is the instant of the page.
module _ (value_text : Json → String) (id_text : ℕ → String) (now : ℕ) where
  abbrev pub texts : Items → List String
  texts nil = []
  texts (cons a rest) = value_text a ∷ texts rest

  abbrev pub keys : Fields → List String
  keys end = []
  keys (field k v rest) = k ∷ keys rest

  abbrev pub pairs : Fields → List String
  pairs end = []
  pairs (field k v rest) = joined (k ∷ "=" ∷ value_text v ∷ []) ∷ pairs rest

  abbrev pub characters : String → List String
  characters String.[] = []
  characters (String.◌∷◌ c s) = String.◌∷◌ c "" ∷ characters s

  -- A dictionary is iterated by its keys and a text by its characters; a number or True raises a TypeError.
  abbrev pub args_part : Json → Option (List String)
  args_part (arr (cons a rest)) = some (listed (texts (cons a rest)) ∷ [])
  args_part (obj (field k v rest)) = some (listed (keys (field k v rest)) ∷ [])
  args_part (str (String.◌∷◌ c s)) = some (listed (characters (String.◌∷◌ c s)) ∷ [])
  args_part args = if is_truthy args then none else some []

  -- What is no dictionary has no `items`: an AttributeError.
  abbrev pub kwargs_part : Json → Option (List String)
  kwargs_part (obj (field k v rest)) = some (listed (pairs (field k v rest)) ∷ [])
  kwargs_part kwargs = if is_truthy kwargs then none else some []

  pub args_str : Json → Json → Option String
  args_str args kwargs = do
    parts ← args_part args
    more ← kwargs_part kwargs
    some (listed (parts ++ more))

  pub row_of : Task → String → String → String
  unfolding fmt
  row_of t ttl args = joined (
      "<tr><td class=\"mono\">"
      ∷ prefix 8 (id_text t.id)
      ∷ "...</td><td class=\"name\">"
      ∷ t.task_name
      ∷ "</td><td>"
      ∷ t.queue_name
      ∷ "</td><td class=\"trunc\" title=\""
      ∷ args
      ∷ "\">"
      ∷ fmt 60 (some args)
      ∷ "</td><td class=\"trunc\" title=\""
      ∷ or_blank t.result
      ∷ "\">"
      ∷ fmt 60 t.result
      ∷ "</td><td class=\"trunc err\" title=\""
      ∷ or_blank t.error
      ∷ "\">"
      ∷ fmt 60 t.error
      ∷ "</td><td><span class=\"badge "
      ∷ badge t.status
      ∷ "\">"
      ∷ status_name t.status
      ∷ "</span></td><td class=\"mono\">"
      ∷ ttl
      ∷ "</td><td class=\"actions\">"
      ∷ buttons t.status (id_text t.id)
      ∷ "</td></tr>"
      ∷ [])

  -- _serialize_task writes the remaining time.
  pub row_html : Task → Option String
  unfolding args_str row_of
  row_html t = do
    ttl ← format_ttl now t.created_at t.ttl_seconds
    args ← args_str t.args t.kwargs
    some (row_of t ttl args)

  abbrev pub rows_html : List Task → Option String
  rows_html [] = some ""
  rows_html (t ∷ ts) = do row ← row_html t; rest ← rows_html ts; some (String.◌++◌ row rest)

  unfoldable pub tasks_table_html : List Task → Option String
  unfolding row_html
  tasks_table_html [] = some "<div class=\"empty\">No tasks found</div>"
  tasks_table_html ts = do rows ← rows_html ts; some (table_of rows)
