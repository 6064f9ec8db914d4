-- ===== src/Server/Login.antt =====
-- The handlers login, logout and current_user of python/lapinq/server.py.
pub mod Sessions
mod Examples
use lapinq.Prelude.{ℕ, ◌+◌, Bool, Option, none, some, List, []}
use lapinq.Json.{Json}
use lapinq.Scheduler.Cron.{Text}
use lapinq.Storage.Users.{Codec, Role, admin, user, User, Profile, authenticate, get_user_by_id}
use lapinq.Server.Session.{Payload, Signer, make_session_token, text_of}

-- The page with an error (status 200 for a form that cannot be read, else 401), or a redirect to "/"
-- with the session cookie.
pub data Outcome : Type 0 where
  bad_form bad_credentials : Outcome
  welcome : (token : Text) → Outcome

-- The column `role`
abbrev pub role_text : Role → Text
role_text admin = text_of "admin"
role_text user = text_of "user"

-- What the driver makes of a JSONB value, and str() of an identifier.
module _ (codec : Codec) (signer : Signer) (from_column : Json → Json) (id_text : ℕ → Text) where
  abbrev pub welcomed : Text → ℕ → Option Profile → Outcome
  welcomed secret now none = bad_credentials
  welcomed secret now (some p) =
      welcome (make_session_token signer secret now (id_text p.id) p.username (role_text p.role))

  -- The form gives `username` and `password`, "" for one that is absent.
  pub login : Text → ℕ → Option (Text × Text) → List User → Outcome
  login secret now none us = bad_form
  login secret now (some (username, password)) us =
      welcomed secret now (authenticate codec from_column username password us)

-- The value of the cookie afterwards
pub logout : Text → Text
logout cookie = []

-- 401, the profile, or what the session says when the user is gone; `id_of` is the cast of a text to UUID.
pub data Me : Type 0 where
  nobody invalid_id : Me
  profile : Profile → Me
  session : Payload → Me

abbrev full_or : Payload → Option Profile → Me
full_or p none = session p
full_or p (some full) = profile full

pub current_user : (Json → Json) → (Text → Option ℕ) → Option Payload → List User → Me
current_user from_column id_of none us = nobody
current_user from_column id_of (some p) us = elim (id_of p.uid) [
  | none ↦ invalid_id
  | some id ↦ full_or p (get_user_by_id from_column id us)
]
