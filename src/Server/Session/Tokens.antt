-- ===== src/Server/Session/Tokens.antt =====
-- Tokens that are made are accepted until they expire, and no others but signed ones are.
use lapinq.Prelude.{
  ℕ, ◌+◌, ◌≤◌, ◌≡◌, refl, sym, subst, ap, ◌∙◌, true, none, some, List, [], ◌∷◌, ◌++◌, arith, ltb,
  ◌==◌, ◌≢◌, if◌then◌else◌, Option-cases, Bool-cases, inl, inr,
}
use lapinq.Scheduler.Cron.{Text, split, cons_head}
use lapinq.Scheduler.Cron.Values.{IsFree, split-IsFree, split-append}
use lapinq.Storage.Users.{text_eq}
use lapinq.Storage.Users.Passwords.{text_eq_refl}
use lapinq.Server.Session.{
  Payload, Signer, make_session_token, if_current, verify_parts, verify_session_token,
}

-- Base64 text and hexadecimal digits have no full stop, and decoding undoes encoding.
abbrev pub IsFaithful : Signer → Type 0
IsFaithful signer =
    ((p : Payload) → signer.decode (signer.encode p) ≡ some p)
    × ((p : Payload) → IsFree (λ c. c == b'.') (signer.encode p))
    × ((k t : Text) → IsFree (λ c. c == b'.') (signer.sign k t))

split-token :
    (a b : Text)
    → IsFree (λ c. c == b'.') a
    → IsFree (λ c. c == b'.') b
    → split (λ c. c == b'.') (a ++ b'.' ∷ b) ≡ a ∷ b ∷ []
split-token a b h k =
    split-append (λ c. c == b'.') a b b'.' h refl
    ∙ ap (λ ws. a ∷ ws) (split-IsFree (λ c. c == b'.') b k)

verify_parts-signed :
    (signer : Signer) (secret : Text) (later : ℕ) (p : Payload)
    → signer.decode (signer.encode p) ≡ some p
    → verify_parts signer secret later (signer.encode p ∷ signer.sign secret (signer.encode p) ∷ [])
      ≡ if_current later p
unfolding verify_parts
verify_parts-signed signer secret later p e =
    rw (text_eq_refl (signer.sign secret (signer.encode p)), e) refl

-- A token that _make_session_token gives is accepted under the same secret, with the user that it
-- was made for, exactly until 86400 seconds after it was made; the encoding is undone by decoding,
-- and has, as the signatures, no full stop.
pub verify_session_token-make_session_token :
    (signer : Signer) (secret user_id username role : Text) (now later : ℕ)
    → IsFaithful signer
    → verify_session_token signer secret later
        (make_session_token signer secret now user_id username role)
      ≡ (if ltb (now + 86400) later
          then none
          else some
              (record { uid = user_id; username = username; role = role; expires = now + 86400 }))
unfolding verify_session_token make_session_token
verify_session_token-make_session_token signer secret user_id username role now later
      (back, free, hex) =
    let p : Payload = record {
      uid = user_id;
      username = username;
      role = role;
      expires = now + 86400;
    } in
    ap (verify_parts signer secret later) (
      split-token (signer.encode p) (signer.sign secret (signer.encode p)) (free p)
        (hex secret (signer.encode p)))
    ∙ verify_parts-signed signer secret later p (back p)

pub text_eq-≡ : (s t : Text) → text_eq s t ≡ true → s ≡ t
text_eq-≡ [] [] h = refl
text_eq-≡ (a ∷ s) (b ∷ t) h = ground (arith, text_eq-≡ s t)
text_eq-≡ [] (b ∷ t) h = ground arith
text_eq-≡ (a ∷ s) [] h = ground arith

-- The parts of a text with the separator between them.
abbrev joined : List Text → Text
joined [] = []
joined (w ∷ []) = w
joined (w ∷ v ∷ ws) = w ++ b'.' ∷ joined (v ∷ ws)

joined-cons_head : (c : ℕ) (ws : List Text) → ws ≢ [] → joined (cons_head c ws) ≡ c ∷ joined ws
joined-cons_head c [] h = absurd (h refl)
joined-cons_head c (w ∷ []) h = refl
joined-cons_head c (w ∷ v ∷ ws) h = refl

joined-empty : (ws : List Text) → ws ≢ [] → joined ([] ∷ ws) ≡ b'.' ∷ joined ws
joined-empty [] h = absurd (h refl)
joined-empty (w ∷ ws) h = refl

cons_head-filled : (c : ℕ) (ws : List Text) → cons_head c ws ≢ []
cons_head-filled c [] e = ground arith
cons_head-filled c (w ∷ ws) e = ground arith

split-filled : (t : Text) → split (λ c. c == b'.') t ≢ []
unfolding split
split-filled [] e = ground arith
split-filled (c ∷ t) e = elim (Bool-cases (c == b'.')) [
  | inl h ↦ ground (arith, h)
  | inr h ↦ cons_head-filled c (split (λ d. d == b'.') t) (rw (sym e) (rw h refl))
]

joined-split : (t : Text) → joined (split (λ c. c == b'.') t) ≡ t
unfolding split
joined-split [] = refl
joined-split (c ∷ t) = elim (Bool-cases (c == b'.')) [
  | inl h ↦
      rw h (
        joined-empty (split (λ d. d == b'.') t) (split-filled t)
        ∙ ground (arith, h, joined-split t))
  | inr h ↦ rw h (
      joined-cons_head c (split (λ d. d == b'.') t) (split-filled t)
      ∙ ap (λ u. c ∷ u) (joined-split t))
]

-- What a token that is accepted is: a body, a full stop and the body's signature.
abbrev pub IsSigned : Signer → Text → ℕ → Text → Payload → Type 0
IsSigned signer secret now token p =
    (body : Text) × (token ≡ body ++ b'.' ∷ signer.sign secret body)
    × (signer.decode body ≡ some p)
    × (now ≤ p.expires)

verify_parts-IsSigned :
    (signer : Signer) (secret : Text) (now : ℕ) (ws : List Text) (p : Payload)
    → verify_parts signer secret now ws ≡ some p
    → IsSigned signer secret now (joined ws) p
unfolding verify_parts
verify_parts-IsSigned signer secret now [] p e = absurd (ground arith)
verify_parts-IsSigned signer secret now (a ∷ []) p e = absurd (ground arith)
verify_parts-IsSigned signer secret now (a ∷ b ∷ []) p e = elim (Option-cases (signer.decode a)) [
  | inl d ↦ absurd (ground (arith, d))
  | inr (q, d) ↦ (
    a,
    ground (arith, d, text_eq-≡ b (signer.sign secret a)),
    ground (arith, d),
    ground (arith, d),
  )
]
verify_parts-IsSigned signer secret now (a ∷ b ∷ c ∷ ws) p e = absurd (ground arith)

pub verify_session_token-IsSigned :
    (signer : Signer) (secret : Text) (now : ℕ) (token : Text) (p : Payload)
    → verify_session_token signer secret now token ≡ some p
    → IsSigned signer secret now token p
unfolding verify_session_token
verify_session_token-IsSigned signer secret now token p e =
    subst (λ t. IsSigned signer secret now t p) (joined-split token)
      (verify_parts-IsSigned signer secret now (split (λ c. c == b'.') token) p e)
