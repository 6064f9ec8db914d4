-- ===== src/Server/Administration/Guarded.antt =====
-- Who may change the users.
use lapinq.Prelude.{
  ℕ, String, ◌≡◌, refl, ◌⊎◌, inl, inr, true, Option, none, some, List, arith, Option-cases,
  Bool-cases,
}
use lapinq.Json.{Json, null, bool, int, float, str, arr, obj, Fields}
use lapinq.Scheduler.Cron.{Text}
use lapinq.Storage.Users.{Codec, User, Profile, authenticate}
use lapinq.Server.Session.{Payload, text_of}
use lapinq.Server.Enqueueing.{get}
use lapinq.Server.Administration.{
  is_admin, Call, create_user_handler, update_role_handler, update_permissions_handler,
  delete_user_handler, verified, change_password_body, change_password_handler, Route, creates,
  sets_role, sets_permissions, deletes, changes_password, administer,
}

-- The caller is the user of a session, and the body has that user's password under `current_password`.
abbrev pub KnowsPassword : Codec → (Json → Json) → Call → List User → Type 0
KnowsPassword codec from_column c us =
    (p : Payload) × (f : Fields) × (current : String) × (profile : Profile) × (c.caller ≡ some p)
    × (c.body ≡ some (obj f))
    × (get "current_password" f (str "") ≡ str current)
    × (authenticate codec from_column p.username (text_of current) us ≡ some profile)

verified-authenticate :
    (codec : Codec) (from_column : Json → Json) (p : Payload) (current : Json) (us : List User)
    (profile : Profile)
    → verified codec from_column p current us ≡ some profile
    → (text : String) × (current ≡ str text)
      × (authenticate codec from_column p.username (text_of text) us ≡ some profile)
unfolding verified
verified-authenticate codec from_column p (str text) us profile e = (text, refl, e)
verified-authenticate codec from_column p null us profile e = absurd (ground arith)
verified-authenticate codec from_column p (bool b) us profile e = absurd (ground arith)
verified-authenticate codec from_column p (int b) us profile e = absurd (ground arith)
verified-authenticate codec from_column p (float b) us profile e = absurd (ground arith)
verified-authenticate codec from_column p (arr b) us profile e = absurd (ground arith)
verified-authenticate codec from_column p (obj b) us profile e = absurd (ground arith)

change_password_body-guarded :
    (codec : Codec) (from_column : Json → Json) (uuid_of : Text → Option ℕ) (c : Call) (p : Payload)
    (current new : Json) (us : List User)
    → ((change_password_body codec from_column uuid_of c p current new us).1 ≡ us)
      ⊎ ((text : String) × (profile : Profile) × (current ≡ str text)
          × (authenticate codec from_column p.username (text_of text) us ≡ some profile))
unfolding change_password_body
change_password_body-guarded codec from_column uuid_of c p current new us =
    elim (Option-cases (verified codec from_column p current us)) [
      | inl e ↦ inl (ground (arith, e))
      | inr (profile, e) ↦
          let (text, same, at) = verified-authenticate codec from_column p current us profile e in
          inr (text, profile, same, at)
    ]

change_password_handler-guarded :
    (codec : Codec) (from_column : Json → Json) (uuid_of : Text → Option ℕ) (c : Call)
    (us : List User) (caller : Option Payload) (body : Option Json)
    → c.caller ≡ caller
    → c.body ≡ body
    → ((change_password_handler codec from_column uuid_of c us).1 ≡ us)
      ⊎ KnowsPassword codec from_column c us
unfolding change_password_handler
change_password_handler-guarded codec from_column uuid_of c us none body e f =
    inl (rw (e, change_password_handler) refl)
change_password_handler-guarded codec from_column uuid_of c us (some p) none e f =
    inl (rw (e, f, change_password_handler) refl)
change_password_handler-guarded codec from_column uuid_of c us (some p) (some (obj b)) e f =
    elim (change_password_body-guarded codec from_column uuid_of c p
      (get "current_password" b (str "")) (get "new_password" b (str "")) us) [
        | inl g ↦ inl (rw (e, f, change_password_handler) g)
        | inr (text, profile, same, at) ↦ inr (p, b, text, profile, e, f, same, at)
      ]
change_password_handler-guarded codec from_column uuid_of c us (some p) (some null) e f =
    inl (rw (e, f, change_password_handler) refl)
change_password_handler-guarded codec from_column uuid_of c us (some p) (some (bool b)) e f =
    inl (rw (e, f, change_password_handler) refl)
change_password_handler-guarded codec from_column uuid_of c us (some p) (some (int b)) e f =
    inl (rw (e, f, change_password_handler) refl)
change_password_handler-guarded codec from_column uuid_of c us (some p) (some (float b)) e f =
    inl (rw (e, f, change_password_handler) refl)
change_password_handler-guarded codec from_column uuid_of c us (some p) (some (str b)) e f =
    inl (rw (e, f, change_password_handler) refl)
change_password_handler-guarded codec from_column uuid_of c us (some p) (some (arr b)) e f =
    inl (rw (e, f, change_password_handler) refl)

-- Whatever is sent to the five handlers that write the users, the table of users stays as it is,
-- or the caller has the session of an administrator, or the handler is change_password_handler,
-- the caller has a session, and the text that the body has under current_password is a password
-- with which authenticate accepts the name of that session.
pub administer-guarded :
    (codec : Codec) (from_column : Json → Json) (uuid_of : Text → Option ℕ) (route : Route)
    (c : Call) (us : List User)
    → ((administer codec from_column uuid_of route c us).1 ≡ us)
      ⊎ ((is_admin c.caller ≡ true)
          ⊎ ((route ≡ changes_password) × KnowsPassword codec from_column c us))
unfolding administer create_user_handler update_role_handler update_permissions_handler
    delete_user_handler
administer-guarded codec from_column uuid_of creates c us = elim (Bool-cases (is_admin c.caller)) [
  | inl e ↦ inr (inl e)
  | inr e ↦ inl (rw (e, create_user_handler) refl)
]
administer-guarded codec from_column uuid_of sets_role c us =
    elim (Bool-cases (is_admin c.caller)) [
      | inl e ↦ inr (inl e)
      | inr e ↦ inl (rw (e, update_role_handler) refl)
    ]
administer-guarded codec from_column uuid_of sets_permissions c us =
    elim (Bool-cases (is_admin c.caller)) [
      | inl e ↦ inr (inl e)
      | inr e ↦ inl (rw (e, update_permissions_handler) refl)
    ]
administer-guarded codec from_column uuid_of deletes c us = elim (Bool-cases (is_admin c.caller)) [
  | inl e ↦ inr (inl e)
  | inr e ↦ inl (rw (e, delete_user_handler) refl)
]
administer-guarded codec from_column uuid_of changes_password c us =
    elim (change_password_handler-guarded codec from_column uuid_of c us c.caller c.body refl
      refl) [ inl e ↦ inl e | inr known ↦ inr (inr (refl, known)) ]
