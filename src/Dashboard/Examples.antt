-- ===== src/Dashboard/Examples.antt =====
-- Fragments of pages.
use Prim.Native.String
use lapinq.Prelude.{is_some, ◌≡◌, refl, String, false, some, none, [], ◌∷◌}
use lapinq.Prelude.Int.{pos, negsuc}
use lapinq.Prelude.Texts.{decimal}
use lapinq.Json.{Json, int, str, arr, obj, cons, nil, field, end}
use lapinq.Server.Remaining.{remaining_text, format_ttl}
use lapinq.Storage.Task.{Task}
use lapinq.Storage.Examples.{task}
use lapinq.Dashboard.{
  queue_cards_html, card_html, table_of, tasks_table_html, row_html, row_of, args_str,
}
use lapinq.Dashboard.Verbatim.{Occurs, tasks_table_html-Occurs}
use lapinq.Dashboard.Failing.{is_some-tasks_table_html}

counted : decimal 1203 ≡ "1203"
counted = refl

no_queues :
    queue_cards_html [] ≡ "<div class=\"empty\" style=\"grid-column:1/-1\">No queues yet</div>"
unfolding queue_cards_html card_html
no_queues = refl

an_hour_left : format_ttl 1_000_000 0 (some (pos 3_661_000_000)) ≡ some "1h 1m"
unfolding format_ttl
an_hour_left = refl

out_of_range : format_ttl 5 0 (some (negsuc 0)) ≡ none
unfolding format_ttl
out_of_range = refl

over : remaining_text 0 ≡ "expired"
over = refl

abbrev value_text : Json → String
value_text j = "1"

arguments :
    args_str value_text decimal 0
      (arr (cons (int (pos 1)) (cons (int (pos 1)) nil)))
      (obj (field "k" (int (pos 1)) end))
    ≡ some "1, 1, k=1"
unfolding args_str
arguments = refl

abbrev script : Task
script = record (task 1 (pos 0) 5) { task_name = "<script>"; args = arr nil; kwargs = obj end }

abbrev listed_kwargs : Task
listed_kwargs = record (task 1 (pos 0) 5) { kwargs = arr (cons (str "k") nil) }

abbrev script_html : String
script_html = table_of (String.◌++◌ (row_of value_text decimal 7 script "∞" "") "")

tasks_table_html-Occurs_example : Occurs "<script>" script_html
unfolding tasks_table_html row_html args_str format_ttl
tasks_table_html-Occurs_example =
    tasks_table_html-Occurs value_text decimal 7 [] [] script script_html refl

is_some-tasks_table_html_example :
    is_some (tasks_table_html value_text decimal 7 (script ∷ listed_kwargs ∷ [])) ≡ false
is_some-tasks_table_html_example =
    is_some-tasks_table_html value_text decimal 7 (script ∷ listed_kwargs ∷ [])
