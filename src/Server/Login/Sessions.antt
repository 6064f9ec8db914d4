-- ===== src/Server/Login/Sessions.antt =====
-- A user who logs in has a session.
use lapinq.Prelude.{
  ℕ, ◌+◌, ◌≤◌, ◌≡◌, refl, ap, ◌∙◌, Bool, true, false, ◌&&◌, none, some, Option, String, List, [],
  ◌∷◌, ◌++◌, map, if◌then◌else◌, ◌==◌,
}
use lapinq.Prelude.Lists.{any}
use lapinq.Json.{Json}
use lapinq.Storage.Enqueue.{ok}
use lapinq.Scheduler.Cron.{Text}
use lapinq.Scheduler.Cron.Values.{IsFree}
use lapinq.Storage.Users.{Codec, text_eq, pbkdf2_iterations, Role, admin, user, User, create_user}
use lapinq.Storage.Users.Passwords
use lapinq.Storage.Users.Passwords.{authenticate-create_user}
use lapinq.Server.Session.{
  Payload, Signer, make_session_token, starts_with, Request, goes_on, text_of, dispatch,
  public_prefixes, is_guarded,
}
use lapinq.Server.Session.Tokens
use lapinq.Server.Session.Admission.{
  reached, is_open, dispatch-reached, dispatch_dashboard-make_session_token,
}
use lapinq.Storage.Task.{Table}
use lapinq.Storage.Queries.{queue_stats}
use lapinq.Storage.Users.Shown.{list_users}
use lapinq.Server.Page.{sorted_set}
use lapinq.Server.Administration.UsersPage.{forbidden, users_page, admin_users_page}
use lapinq.Server.Login.{welcome, role_text, welcomed, login}

-- The payload of the cookie that a log-in gives.
abbrev pub logged_in : (ℕ → Text) → ℕ → ℕ → Text → Role → Payload
logged_in id_text id now name role = record {
  uid = id_text id;
  username = name;
  role = role_text role;
  expires = now + 86400;
}

abbrev pub is_admin_role : Role → Bool
is_admin_role admin = true
is_admin_role user = false

reached-admin :
    (from_column : Json → Json) (collates : String → String → Bool) (id_text : ℕ → Text)
    (id now : ℕ) (name : Text) (role : Role) (api_key : Option Text) (us : List User) (ts : Table)
    → admin_users_page from_column collates
        (reached api_key (logged_in id_text id now name role))
        us
        ts
      ≡ (if is_admin_role role && is_open api_key
          then users_page
              (list_users from_column us)
              (sorted_set (map (λ q. q.queue_name) (queue_stats collates ts)))
          else forbidden)
reached-admin from_column collates id_text id now name admin none us ts = refl
reached-admin from_column collates id_text id now name admin (some key) us ts = refl
reached-admin from_column collates id_text id now name user none us ts = refl
reached-admin from_column collates id_text id now name user (some key) us ts = refl

-- If create_user succeeds, a log-in with that name and a password of the digest of the one that
-- was set is welcomed with a token. A request with that cookie, within 86400 seconds, with a
-- method other than OPTIONS and on a path of the dashboard that wants a session and is not under
-- the prefix of the API, goes on through both middlewares, whatever has happened to the users in
-- between: as the user with the given id, name and role if no API key is set, and without a user
-- if one is. So the handler admin_users_page makes its page exactly if the role is admin and no
-- API key is set, and else forbids it. Base64 and JSON are undone by decoding and avoid the
-- separators, as the salt does.
pub login-admits :
    (codec : Codec) (signer : Signer) (from_column : Json → Json)
    (collates : String → String → Bool) (id_text : ℕ → Text) (prefix : Text) (api_key : Option Text)
    (secret : Text) (id made now later : ℕ) (salt name p q : Text) (role : Role) (us vs : List User)
    (u : User) (r : Request) (ws : List User) (ts : Table)
    → Passwords.IsFaithful codec
    → Tokens.IsFaithful signer
    → IsFree (λ c. c == b':') salt
    → create_user codec id made salt name p role us ≡ (ok u, vs)
    → text_eq (codec.pbkdf2 q salt pbkdf2_iterations) (codec.pbkdf2 p salt pbkdf2_iterations) ≡ true
    → later ≤ now + 86400
    → any (starts_with r.path) public_prefixes ≡ false
    → is_guarded r.path ≡ true
    → text_eq r.method (text_of "OPTIONS") ≡ false
    → starts_with r.path (prefix ++ b'/' ∷ []) ≡ false
    → (token : Text) × (login codec signer from_column id_text secret now (some (name, q)) vs
        ≡ welcome token)
      × (dispatch signer prefix api_key secret later (record r { cookie = token })
          ≡ goes_on (reached api_key (logged_in id_text id now name role)))
      × (admin_users_page from_column collates
            (reached api_key (logged_in id_text id now name role))
            ws
            ts
          ≡ (if is_admin_role role && is_open api_key
              then users_page
                  (list_users from_column ws)
                  (sorted_set (map (λ s. s.queue_name) (queue_stats collates ts)))
              else forbidden))
unfolding login
login-admits codec signer from_column collates id_text prefix api_key secret id made now later salt
      name p q role us vs u r ws ts good_codec good_signer free made_ok right h public guarded
      method path =
    let token = make_session_token signer secret now (id_text id) name (role_text role) in
    (
      token,
      ap (welcomed codec signer from_column id_text secret now) (
            authenticate-create_user codec from_column id made salt name p q role us vs u good_codec
              free made_ok)
          ∙ (rw right refl),
      dispatch-reached signer prefix api_key secret later (record r { cookie = token })
          (logged_in id_text id now name role) method path
          (dispatch_dashboard-make_session_token signer secret (id_text id) name (role_text role)
            now later good_signer h r public guarded),
      reached-admin from_column collates id_text id now name role api_key ws ts,
    )
