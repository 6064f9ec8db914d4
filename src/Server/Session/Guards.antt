-- ===== src/Server/Session/Guards.antt =====
-- What the middleware of the API and of the dashboard lets through.
use lapinq.Prelude.{
  ℕ, ◌≡◌, refl, sym, ap, ◌∙◌, true, false, not, ◌&&◌, Option, none, some, [], ◌∷◌, ◌++◌, arith, ◌≢◌,
  ◌⊎◌, Option-cases, Bool-cases, inl, inr,
}
use lapinq.Prelude.Lists.{any}
use lapinq.Scheduler.Cron.{Text}
use lapinq.Storage.Users.{text_eq}
use lapinq.Server.Session.{
  Payload, Signer, Request, goes_on, redirected, starts_with, is_empty, session_of, text_of, admit,
  dispatch_api, admit_or_redirect, public_prefixes, is_guarded, dispatch_dashboard,
}
use lapinq.Server.Session.Tokens.{IsSigned, text_eq-≡, verify_session_token-IsSigned}

session_of-IsSigned :
    (signer : Signer) (secret : Text) (now : ℕ) (token : Text) (p : Payload)
    → session_of signer secret now token ≡ some p
    → IsSigned signer secret now token p
unfolding session_of
session_of-IsSigned signer secret now token p e =
    verify_session_token-IsSigned signer secret now token p (ground arith)

key-filled : (k a : Text) → (not (is_empty k) && text_eq k a) ≡ true → a ≢ []
key-filled [] a h e = ground arith
key-filled (c ∷ k) [] h e = ground arith
key-filled (c ∷ k) (d ∷ a) h e = ground arith

admit-some :
    (o : Option Payload) (u : Option Payload)
    → admit o ≡ goes_on u
    → (p : Payload) × (o ≡ some p) × (u ≡ some p)
admit-some none u e = absurd (ground arith)
admit-some (some p) u e = (p, refl, ground arith)

-- With an API key set, a request under the prefix of the API whose method is not OPTIONS goes on
-- only with that key, which is not empty, and then without a user, or with a session cookie that
-- is a body with its signature under the secret, whose payload has not expired, and then as the
-- user of the payload.
pub dispatch_api-guards :
    (signer : Signer) (prefix api_key secret : Text) (now : ℕ) (r : Request) (u : Option Payload)
    → text_eq r.method (text_of "OPTIONS") ≡ false
    → starts_with r.path (prefix ++ b'/' ∷ []) ≡ true
    → dispatch_api signer prefix api_key secret now r ≡ goes_on u
    → ((r.api_key ≡ api_key) × (api_key ≢ []) × (u ≡ none))
      ⊎ ((p : Payload) × (u ≡ some p) × IsSigned signer secret now r.cookie p)
unfolding dispatch_api
dispatch_api-guards signer prefix api_key secret now r u m s e =
    elim (Bool-cases (not (is_empty r.api_key) && text_eq r.api_key api_key)) [
      | inl k ↦
          inl (
            text_eq-≡ r.api_key api_key (ground arith),
            key-filled r.api_key api_key k,
            ground arith,
          )
      | inr k ↦
          let (p, at, eq) = admit-some (session_of signer secret now r.cookie) u (ground arith) in
          inr (p, eq, session_of-IsSigned signer secret now r.cookie p at)
    ]

-- On the paths of the dashboard that want a session, less those under a public prefix and those
-- that begin with /ws, a request goes on only with a session cookie that is a body with its
-- signature under the secret, whose payload has not expired, and then as the user of the payload.
pub dispatch_dashboard-guards :
    (signer : Signer) (secret : Text) (now : ℕ) (r : Request) (u : Option Payload)
    → any (starts_with r.path) public_prefixes ≡ false
    → is_guarded r.path ≡ true
    → starts_with r.path (text_of "/ws") ≡ false
    → dispatch_dashboard signer secret now r ≡ goes_on u
    → (p : Payload) × (u ≡ some p) × IsSigned signer secret now r.cookie p
unfolding dispatch_dashboard
dispatch_dashboard-guards signer secret now r u a b c e =
    elim (Option-cases (session_of signer secret now r.cookie)) [
      | inl n ↦ absurd (blocked (session_of signer secret now r.cookie) n)
      | inr (p, at) ↦ (p, passed p at, session_of-IsSigned signer secret now r.cookie p at)
    ]
  where
    verdict :
        dispatch_dashboard signer secret now r
        ≡ admit_or_redirect false (session_of signer secret now r.cookie)
    verdict = rw (dispatch_dashboard, a, b, c) refl

    blocked : (o : Option Payload) → session_of signer secret now r.cookie ≡ none → ⊥
    blocked o n =
        let f : redirected ≡ goes_on u = ap (admit_or_redirect false) (sym n) ∙ sym verdict ∙ e in
        ground arith

    passed : (p : Payload) → session_of signer secret now r.cookie ≡ some p → u ≡ some p
    passed p at =
        let f : goes_on u ≡ goes_on (some p) = sym e ∙ verdict ∙ ap (admit_or_redirect false) at in
        ground arith
