-- ===== src/Server/Session.antt =====
-- Session tokens and the authentication middleware of python/lapinq/server.py. Texts are lists of code
-- points; instants are seconds.
pub mod Tokens
pub mod Guards
pub mod Admission
pub mod Examples
use Prim.Native.Char.{code}
use Prim.Native.String
use lapinq.Prelude.{
  String, ℕ, ◌+◌, Bool, true, false, not, ◌&&◌, ◌||◌, Option, none, some, List, [], ◌∷◌, ◌++◌, ltb,
  ◌==◌, if◌then◌else◌,
}
use lapinq.Prelude.Lists.{any}
use lapinq.Scheduler.Cron.{Text, ◌>>=◌, split}
use lapinq.Storage.Users.{text_eq}

-- The fields `uid`, `un`, `role` and `exp` of a payload.
pub record Payload : Type 0 where
  pub uid : Text
  pub username : Text
  pub role : Text
  pub expires : ℕ

-- hmac.new(secret, text, sha256).hexdigest(); the payload as JSON in URL-safe Base64 without its
-- padding, and the way back, `none` for an exception.
pub record Signer : Type 0 where
  pub sign : Text → Text → Text
  pub encode : Payload → Text
  pub decode : Text → Option Payload

-- SESSION_MAX_AGE
abbrev pub session_max_age : ℕ
session_max_age = 86400

pub make_session_token : Signer → Text → ℕ → Text → Text → Text → Text
make_session_token signer secret now user_id username role =
    let body = signer.encode (record {
      uid = user_id;
      username = username;
      role = role;
      expires = now + session_max_age;
    }) in
    body ++ b'.' ∷ signer.sign secret body

abbrev pub if_current : ℕ → Payload → Option Payload
if_current now p = if ltb p.expires now then none else some p

unfoldable pub verify_parts : Signer → Text → ℕ → List Text → Option Payload
verify_parts signer secret now (body ∷ sig ∷ []) =
    if text_eq sig (signer.sign secret body) then (signer.decode body >>= if_current now) else none
verify_parts signer secret now _ = none

unfoldable pub verify_session_token : Signer → Text → ℕ → Text → Option Payload
unfolding split verify_parts
verify_session_token signer secret now token =
    verify_parts signer secret now (split (λ c. c == b'.') token)

-- What the middleware reads of a request: the cookie is "" where there is none.
pub record Request : Type 0 where
  pub method : Text
  pub path : Text
  pub api_key : Text
  pub cookie : Text

-- The request goes on with the user of the session, if any, or is answered: 401, or a redirect to
-- /login.
pub data Verdict : Type 0 where
  goes_on : Option Payload → Verdict
  unauthorized redirected : Verdict

abbrev pub starts_with : Text → Text → Bool
starts_with t [] = true
starts_with [] (c ∷ p) = false
starts_with (d ∷ t) (c ∷ p) = d == c && starts_with t p

abbrev pub is_empty : Text → Bool
is_empty [] = true
is_empty _ = false

-- _verify_session_token(secret, token) if token else None
unfoldable pub session_of : Signer → Text → ℕ → Text → Option Payload
unfolding verify_session_token
session_of signer secret now token =
    if is_empty token then none else verify_session_token signer secret now token

abbrev pub text_of : String → Text
text_of String.[] = []
text_of (String.◌∷◌ c s) = code c ∷ text_of s

abbrev pub admit : Option Payload → Verdict
admit none = unauthorized
admit (some p) = goes_on (some p)

-- AuthMiddleware.dispatch
pub dispatch_api : Signer → (prefix api_key secret : Text) → ℕ → Request → Verdict
unfolding session_of
dispatch_api signer prefix api_key secret now r =
    if text_eq r.method (text_of "OPTIONS")
    then goes_on none
    else if starts_with r.path (prefix ++ b'/' ∷ [])
    then (if not (is_empty r.api_key) && text_eq r.api_key api_key
        then goes_on none
        else admit (session_of signer secret now r.cookie))
    else goes_on none

abbrev pub admit_or_redirect : Bool → Option Payload → Verdict
admit_or_redirect is_socket none = if is_socket then goes_on none else redirected
admit_or_redirect is_socket (some p) = goes_on (some p)

-- The public prefixes, and the paths and prefixes that want a session.
abbrev pub public_prefixes : List Text
public_prefixes = text_of "/login" ∷ text_of "/health" ∷ text_of "/metrics" ∷ []

abbrev pub guarded_paths : List Text
guarded_paths =
    text_of "/"
    ∷ text_of "/ws"
    ∷ text_of "/admin"
    ∷ text_of "/me"
    ∷ text_of "/account/password"
    ∷ text_of "/admin/users"
    ∷ text_of "/logout"
    ∷ []

abbrev pub is_guarded : Text → Bool
is_guarded path =
    any (text_eq path) guarded_paths
    || starts_with path (text_of "/admin/")
    || starts_with path (text_of "/account/")

-- DashboardAuthMiddleware.dispatch
pub dispatch_dashboard : Signer → Text → ℕ → Request → Verdict
unfolding session_of
dispatch_dashboard signer secret now r =
    if any (starts_with r.path) public_prefixes
    then goes_on none
    else if is_guarded r.path
    then admit_or_redirect (starts_with r.path (text_of "/ws"))
        (session_of signer secret now r.cookie)
    else goes_on none

-- The user that AuthMiddleware leaves, which comes after DashboardAuthMiddleware: a request with the
-- method OPTIONS keeps its user, and any other gets one anew.
pub and_api :
    Signer → (prefix : Text) → Option Text → (secret : Text) → ℕ → Request → Verdict → Verdict
unfolding dispatch_api
and_api signer prefix (some api_key) secret now r (goes_on user) =
    if text_eq r.method (text_of "OPTIONS")
    then goes_on user
    else dispatch_api signer prefix api_key secret now r
and_api signer prefix api_key secret now r verdict = verdict

-- The two middlewares in their order; AuthMiddleware is there only if an API key is set.
pub dispatch : Signer → (prefix : Text) → Option Text → (secret : Text) → ℕ → Request → Verdict
unfolding dispatch_dashboard and_api
dispatch signer prefix api_key secret now r =
    and_api signer prefix api_key secret now r (dispatch_dashboard signer secret now r)
