-- ===== src/Server/Socket/Examples.antt =====
-- Sample conversations.
use lapinq.Prelude.{◌≡◌, refl, String, false, true, if◌then◌else◌, some, none, [], ◌∷◌, str_eq}
use lapinq.Prelude.Lists.{All}
use lapinq.Prelude.Texts.{decimal}
use lapinq.Json.{str, obj, field, end}
use lapinq.Storage.Queries.{list_tasks, queue_names, queue_stats}
use lapinq.Scheduler.Cron.{split}
use lapinq.Server.Session.{Signer, Payload, text_of, session_of, verify_session_token, verify_parts}
use lapinq.Dashboard.{queue_cards_html, tasks_table_html}
use lapinq.Server.Enqueueing.{get}
use lapinq.Server.Page.{sorted_set, Texts, no_filters, Sight, page}
use lapinq.Server.Socket.{
  Socket, Sent, connecting, Event, wakes, gets, received, updated_filters, send, require_auth, step,
  run,
}
use lapinq.Server.Socket.Current.{run-IsCurrent}
use lapinq.Server.Socket.Admitted.{Starts, run-Starts}

abbrev texts : Texts
texts = record {
  lower = λ s. s;
  strip = λ s. s;
  uuid_of = λ s. if str_eq s "4" then some 4 else none;
  id_text = decimal;
  value_text = λ j. "1";
  ilike = str_eq;
  column_text = λ j. "1";
  collates = λ s t. true;
}

abbrev ann : Payload
ann = record { uid = text_of "1"; username = text_of "ann"; role = text_of "admin"; expires = 9 }

abbrev signer : Signer
signer = record {
  sign = λ secret t. text_of "s";
  encode = λ p. text_of "a";
  decode = λ t. some ann;
}

abbrev sight : Sight
sight = record { now = 5_000_000; tasks = []; is_reachable = true; shutting_down = false }

abbrev auth : Event
auth = gets (obj (field "type" (str "auth") (field "token" (str "a.s") end)))

abbrev cards : String
cards = "<div class=\"empty\" style=\"grid-column:1/-1\">No queues yet</div>"

abbrev table : String
table = "<div class=\"empty\">No tasks found</div>"

abbrev first : Sent
first = record { cards = cards; table = table; queues = []; user = ann; cleanup_interval = none }

abbrev settled : Socket
settled = record {
  user = ann;
  filters = no_filters;
  last_cards = some cards;
  last_table = some table;
  changed = false;
}

run-IsCurrent_example : some (cards, table) ≡ page texts sight no_filters
unfolding run step require_auth send page list_tasks queue_stats queue_names queue_cards_html
    tasks_table_html session_of verify_session_token verify_parts split get sorted_set
run-IsCurrent_example =
    run-IsCurrent texts signer (text_of "k") 0 ((sight, auth) ∷ []) sight wakes (first ∷ []) settled
      refl

run-Starts_example :
    All
      (λ m. Starts texts signer (text_of "k") 0 ((sight, auth) ∷ (sight, wakes) ∷ []) m.user)
      (run texts signer (text_of "k") 0 ((sight, auth) ∷ (sight, wakes) ∷ []) connecting).0
run-Starts_example = run-Starts texts signer (text_of "k") 0 ((sight, auth) ∷ (sight, wakes) ∷ [])

searching :
    received (obj (field "queue" (str "q") (field "id" (str "") end))) settled
    ≡ some (record settled { filters = record no_filters { queue = str "q" }; changed = true })
unfolding received get updated_filters
searching = refl

not_a_dictionary : received (str "my queue") settled ≡ none
unfolding received
not_a_dictionary = refl
