-- ===== src/Server/Socket.antt =====
-- The web socket of the dashboard, ws_endpoint of python/lapinq/server.py, as a state machine: the first
-- message, the filters, and what is sent.
pub mod Steps
pub mod Current
pub mod Admitted
mod Examples
use Prim.Native.String
use lapinq.Prelude.{
  ℕ, ◌/◌, String, Bool, true, false, not, ◌&&◌, ◌||◌, Option, none, some, List, [], ◌∷◌, map, ◌==◌,
  str_eq, if◌then◌else◌,
}
use lapinq.Prelude.Lists.{any}
use lapinq.Json.{Json, null, str, arr, obj, Items, nil, cons, Fields, end, field, is_truthy}
use lapinq.Storage.Queries.{QueueStats, queue_stats}
use lapinq.Scheduler.Cron.{Text}
use lapinq.Server.Session.{Signer, Payload, session_of, text_of}
use lapinq.Server.Enqueueing.{get}
use lapinq.Server.Page.{Texts, Filters, no_filters, Sight, occurs, sorted_set, page}

pub record Socket : Type 0 where
  pub user : Payload
  pub filters : Filters
  pub last_cards : Option String
  pub last_table : Option String
  pub changed : Bool

-- What websocket.send_json sends; the user's role and name are sent.
pub record Sent : Type 0 where
  pub cards : String
  pub table : String
  pub queues : List String
  pub user : Payload
  pub cleanup_interval : Option ℕ

-- The end of a wait: the time-out or a notification, a message, or the end of the connection. `garbled` is
-- no JSON.
pub data Event : Type 0 where
  wakes gone garbled : Event
  gets : Json → Event

-- `closed` has the code that the program closes with, if it does; `crashed` is an exception that
-- leaves ws_endpoint.
pub data Phase : Type 0 where
  connecting : Phase
  serving : Socket → Phase
  closed : Option ℕ → Phase
  crashed : Phase

-- if the code set for the cleanup interval is not 0
abbrev pub set_interval : ℕ → Option ℕ
set_interval seconds = if seconds == 0 then none else some seconds

-- The next phase and what is sent.
abbrev pub Effect : Type 0
Effect = Phase × Option Sent

abbrev pub is_text : Json → String → Bool
is_text (str s) t = str_eq s t
is_text j t = false

-- key in data
abbrev pub has_key : Fields → String → Bool
has_key end key = false
has_key (field k v rest) key = str_eq k key || has_key rest key

abbrev pub has_item : Items → String → Bool
has_item nil key = false
has_item (cons j rest) key = is_text j key || has_item rest key

-- if key in data: filter = data[key] or None
abbrev pub updated : Fields → String → Json → Json
updated fields key old =
    if has_key fields key
    then (if is_truthy (get key fields null) then get key fields null else null)
    else old

abbrev pub filter_keys : List String
filter_keys = "queue" ∷ "id" ∷ "status" ∷ "task_name" ∷ "args" ∷ "result" ∷ "error" ∷ []

pub updated_filters : Fields → Filters → Filters
updated_filters fields f = record {
  queue = updated fields "queue" f.queue;
  id = updated fields "id" f.id;
  status = updated fields "status" f.status;
  task_name = updated fields "task_name" f.task_name;
  args = updated fields "args" f.args;
  result = updated fields "result" f.result;
  error = updated fields "error" f.error;
}

-- A list or a text that has none of the keys changes nothing; another value raises a TypeError, by `in`
-- or by the look-up that follows.
pub received : Json → Socket → Option Socket
unfolding updated_filters
received (obj fields) s = some (record s {
  filters = updated_filters fields s.filters;
  changed = s.changed || any (has_key fields) filter_keys;
})
received (arr items) s = if any (has_item items) filter_keys then none else some s
received (str text) s = if any (λ key. occurs key text) filter_keys then none else some s
received j s = none

abbrev pub differs : String → Option String → Bool
differs new none = true
differs new (some old) = not (str_eq new old)

abbrev pub kept : Option Sent → List Sent → List Sent
kept none rest = rest
kept (some m) rest = m ∷ rest

module _ (texts : Texts) (signer : Signer) (secret : Text) (cleanup_interval : ℕ) where
  abbrev pub sent_page : Sight → Socket → String → String → Sent
  sent_page g s cards table = record {
    cards = cards;
    table = table;
    queues = sorted_set (map (λ q. q.queue_name) (queue_stats texts.collates g.tasks));
    user = s.user;
    cleanup_interval = set_interval cleanup_interval;
  }

  -- The page, if it could be made, is sent if it is not what was sent last.
  abbrev pub show : Sight → Socket → Option (String × String) → Effect
  show g s none = (closed (some 1011), none)
  show g s (some p) =
      if differs p.0 s.last_cards || differs p.1 s.last_table || s.changed
      then (
        serving (record s { last_cards = some p.0; last_table = some p.1; changed = false }),
        some (sent_page g s p.0 p.1),
      )
      else (serving s, none)

  -- _send
  pub send : Sight → Socket → Effect
  send g s = if g.shutting_down then (closed none, none) else show g s (page texts g s.filters)

  abbrev pub opened : Payload → Socket
  opened user = record {
    user = user;
    filters = no_filters;
    last_cards = none;
    last_table = none;
    changed = true;
  }

  -- A token that is no text, or empty, is no session.
  abbrev pub session_in : ℕ → Json → Option Payload
  session_in now (str token) = session_of signer secret (now / 1_000_000) (text_of token)
  session_in now j = none

  -- The first page, or 4001 where there is no session.
  abbrev pub opens : Sight → Option Payload → Effect
  opens g none = (closed (some 4001), none)
  opens g (some user) = send g (opened user)

  -- _require_auth
  pub require_auth : Sight → Json → Effect
  unfolding send
  require_auth g (obj msg) =
      if is_text (get "type" msg null) "auth"
      then opens g (session_in g.now (get "token" msg (str "")))
      else (closed (some 4001), none)
  require_auth g msg = (closed (some 4001), none)

  abbrev pub continues : Sight → Option Socket → Effect
  continues g none = (crashed, none)
  continues g (some s) = send g s

  pub step : Sight → Event → Phase → Effect
  unfolding require_auth received send
  step g (gets msg) connecting = require_auth g msg
  step g garbled connecting = (crashed, none)
  step g event connecting = (closed (some 4001), none)
  step g wakes (serving s) = send g s
  step g gone (serving s) = (closed none, none)
  step g garbled (serving s) = (crashed, none)
  step g (gets msg) (serving s) = elim (received msg s) [
    | none ↦ (crashed, none)
    | some r ↦ send g r
  ]
  step g event phase = (phase, none)

  -- What is sent in turn, and the last phase.
  unfoldable pub run : List (Sight × Event) → Phase → List Sent × Phase
  unfolding step
  run [] phase = ([], phase)
  run (e ∷ es) phase =
      let (next, out) = step e.0 e.1 phase in
      let (rest, last) = run es next in (kept out rest, last)
