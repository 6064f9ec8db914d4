-- ===== src/Server/Session/Admission.antt =====
-- A request with the cookie that a log-in set is let through as its user.
use lapinq.Prelude.{
  ℕ, ◌+◌, ◌≤◌, ◌≡◌, refl, ◌∙◌, Bool, Option, none, true, false, some, [], ◌∷◌, ◌++◌, arith,
}
use lapinq.Prelude.Lists.{any}
use lapinq.Scheduler.Cron.{Text}
use lapinq.Server.Session.{
  Signer, make_session_token, session_of, is_empty, starts_with, Request, goes_on,
  dispatch_dashboard, dispatch_api, and_api, dispatch, text_of, public_prefixes, is_guarded,
  Payload,
}
use lapinq.Storage.Users.{text_eq}
use lapinq.Server.Session.Tokens.{IsFaithful, verify_session_token-make_session_token}

filled : (a b : Text) (c : ℕ) → is_empty (a ++ c ∷ b) ≡ false
filled [] b c = refl
filled (d ∷ a) b c = refl

module _ (signer : Signer) (secret uid name role : Text) (now later : ℕ)
    (faithful : IsFaithful signer) (h : later ≤ now + 86400) where
  abbrev user_of : Payload
  user_of = record { uid = uid; username = name; role = role; expires = now + 86400 }

  session_of-make_session_token :
      session_of signer secret later (make_session_token signer secret now uid name role)
      ≡ some user_of
  unfolding session_of make_session_token
  session_of-make_session_token =
      rw (filled (signer.encode user_of) (signer.sign secret (signer.encode user_of)) b'.') (
        verify_session_token-make_session_token signer secret uid name role now later faithful
        ∙ ground arith)

  pub dispatch_dashboard-make_session_token :
      (r : Request)
      → any (starts_with r.path) public_prefixes ≡ false
      → is_guarded r.path ≡ true
      → dispatch_dashboard signer secret later
          (record r { cookie = make_session_token signer secret now uid name role })
        ≡ goes_on (some user_of)
  unfolding dispatch_dashboard
  dispatch_dashboard-make_session_token r public guarded =
      rw (public, guarded, session_of-make_session_token) refl

-- The user that a handler outside of the API finds: AuthMiddleware resets it where an API key is set.
abbrev pub reached : Option Text → Payload → Option Payload
reached none p = some p
reached (some api_key) p = none

abbrev pub is_open : Option Text → Bool
is_open none = true
is_open (some api_key) = false

pub dispatch-reached :
    (signer : Signer) (prefix : Text) (api_key : Option Text) (secret : Text) (now : ℕ)
    (r : Request) (p : Payload)
    → text_eq r.method (text_of "OPTIONS") ≡ false
    → starts_with r.path (prefix ++ b'/' ∷ []) ≡ false
    → dispatch_dashboard signer secret now r ≡ goes_on (some p)
    → dispatch signer prefix api_key secret now r ≡ goes_on (reached api_key p)
unfolding dispatch and_api dispatch_api
dispatch-reached signer prefix none secret now r p method path e = rw e refl
dispatch-reached signer prefix (some key) secret now r p method path e = rw (e, method, path) refl
