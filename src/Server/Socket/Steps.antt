-- ===== src/Server/Socket/Steps.antt =====
-- Every step of the web socket is an end or a call of `_send`.
use text.Mathlib.TextEquality.{eq_iff}
use lapinq.Prelude.{
  ℕ, ◌/◌, ◌≡◌, refl, ap, String, Bool, true, false, none, some, if◌then◌else◌, Option-cases,
  Bool-cases, inl, inr,
}
use lapinq.Prelude.Lists.{any}
use lapinq.Json.{Json, null, bool, int, float, str, arr, obj, Fields}
use lapinq.Scheduler.Cron.{Text}
use lapinq.Server.Session.{Signer, Payload, session_of, text_of}
use lapinq.Server.Enqueueing.{get}
use lapinq.Server.Page.{Texts, Filters, Sight, occurs}
use lapinq.Server.Socket.{
  Socket, connecting, serving, closed, crashed, Effect, Event, wakes, gone, garbled, gets, received,
  filter_keys, has_item, is_text, session_in, send, opened, opens, require_auth, continues, step,
}

pub if-Holds {ℓ κ} :
    {A : Type ℓ} (P : A → Type κ) (b : Bool) {x y : A} → P x → P y → P (if b then x else y)
if-Holds P true h k = h
if-Holds P false h k = k

is_text_lem : (j : Json) (t : String) → is_text j t ≡ true → j ≡ str t
is_text_lem (str s) t e = ap str ((eq_iff s t).0 e)
is_text_lem null t e = cc
is_text_lem (bool b) t e = cc
is_text_lem (int n) t e = cc
is_text_lem (float x) t e = cc
is_text_lem (arr items) t e = cc
is_text_lem (obj fields) t e = cc

module _ (texts : Texts) (signer : Signer) (secret : Text) (cleanup_interval : ℕ) where
  -- The event is a message of the type auth with a token whose session is the user's.
  abbrev pub IsAuth : Sight → Event → Payload → Type 0
  IsAuth g e user =
      (msg : Fields) × (token : String) × (e ≡ gets (obj msg))
      × (get "type" msg null ≡ str "auth")
      × (get "token" msg (str "") ≡ str token)
      × (session_of signer secret (g.now / 1_000_000) (text_of token) ≡ some user)

  module _ {κ} (P : Effect → Type κ) (g : Sight) where
    Sends : Socket → Type κ
    Sends s =
        (f : Filters) (c : Bool)
        → P (send texts signer secret cleanup_interval g (record s { filters = f; changed = c }))

    unless-Holds :
        (raises : Bool) (s : Socket)
        → P (crashed, none)
        → Sends s
        → P (continues texts signer secret cleanup_interval g (if raises then none else some s))
    unfolding Sends
    unless-Holds true s h k = h
    unless-Holds false s h k = k s.filters s.changed

    continues-Holds :
        (msg : Json) (s : Socket)
        → P (crashed, none)
        → Sends s
        → P (continues texts signer secret cleanup_interval g (received msg s))
    unfolding received Sends
    continues-Holds null s h k = h
    continues-Holds (bool b) s h k = h
    continues-Holds (int n) s h k = h
    continues-Holds (float x) s h k = h
    continues-Holds (str text) s h k = unless-Holds (any (λ key. occurs key text) filter_keys) s h k
    continues-Holds (arr items) s h k = unless-Holds (any (has_item items) filter_keys) s h k
    continues-Holds (obj fields) s h k = k _ _

    pub serving-Holds :
        (e : Event) (s : Socket)
        → P (closed none, none)
        → P (crashed, none)
        → ((f : Filters) (c : Bool)
            → P (
                send texts signer secret cleanup_interval g
                  (record s { filters = f; changed = c })))
        → P (step texts signer secret cleanup_interval g e (serving s))
    unfolding step Sends
    serving-Holds wakes s h l k = k s.filters s.changed
    serving-Holds gone s h l k = h
    serving-Holds garbled s h l k = l
    serving-Holds (gets msg) s h l k = continues-Holds msg s l k

    session-Holds :
        (j : Json)
        → P (closed (some 4001), none)
        → ((token : String) (user : Payload)
            → j ≡ str token
            → session_of signer secret (g.now / 1_000_000) (text_of token) ≡ some user
            → P (
                send texts signer secret cleanup_interval g
                  (opened texts signer secret cleanup_interval user)))
        → P (
            opens texts signer secret cleanup_interval g
              (session_in texts signer secret cleanup_interval g.now j))
    session-Holds null h k = h
    session-Holds (bool b) h k = h
    session-Holds (int n) h k = h
    session-Holds (float x) h k = h
    session-Holds (arr items) h k = h
    session-Holds (obj fields) h k = h
    session-Holds (str token) h k =
        elim (Option-cases (session_of signer secret (g.now / 1_000_000) (text_of token))) [
          | inl e ↦ rw (e) h
          | inr (user, e) ↦ rw (e) (k token user refl e)
        ]

    pub connecting-Holds :
        (e : Event)
        → P (crashed, none)
        → P (closed (some 4001), none)
        → ((user : Payload)
            → IsAuth g e user
            → P (
                send texts signer secret cleanup_interval g
                  (opened texts signer secret cleanup_interval user)))
        → P (step texts signer secret cleanup_interval g e connecting)
    unfolding step require_auth
    connecting-Holds wakes l h k = h
    connecting-Holds gone l h k = h
    connecting-Holds garbled l h k = l
    connecting-Holds (gets null) l h k = h
    connecting-Holds (gets (bool b)) l h k = h
    connecting-Holds (gets (int n)) l h k = h
    connecting-Holds (gets (float x)) l h k = h
    connecting-Holds (gets (str text)) l h k = h
    connecting-Holds (gets (arr items)) l h k = h
    connecting-Holds (gets (obj msg)) l h k =
        elim (Bool-cases (is_text (get "type" msg null) "auth")) [
          | inl e ↦ rw (e) (
              session-Holds (get "token" msg (str "")) h (λ token user given valid.
                k user (msg, token, refl, is_text_lem _ _ e, given, valid)))
          | inr e ↦ rw (e) h
        ]
