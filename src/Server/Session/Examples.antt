-- ===== src/Server/Session/Examples.antt =====
-- Toy ciphers, and sample requests on which the theorems on sessions and passwords are applied.
use lapinq.Prelude.{
  ℕ, ◌+◌, ◌-◌, ◌≤◌, ◌≡◌, ◌≢◌, ◌⊎◌, refl, ap, ◌∙◌, false, Option, none, some, List, [], ◌∷◌, ◌++◌,
  map, arith, ◌==◌,
}
use lapinq.Prelude.Lists.{All-append}
use lapinq.Scheduler.Cron.{Text, split}
use lapinq.Scheduler.Cron.Values.{IsFree, split-IsFree, split-append}
use lapinq.Storage.Users.{Codec}
use lapinq.Server.Session.{Payload, Signer, make_session_token, Request, dispatch_api, text_of}
use lapinq.Server.Session.Tokens.{IsSigned}
use lapinq.Server.Session.Guards.{dispatch_api-guards}

abbrev pub raised : Text → Text
raised = map (λ c. c + 60)

abbrev pub lowered : Text → Text
lowered = map (λ c. c - 60)

pub lowered-raised : (t : Text) → lowered (raised t) ≡ t
lowered-raised [] = refl
lowered-raised (c ∷ t) = ground (arith, lowered-raised t)

pub raised-IsFree : (k : ℕ) (t : Text) → k ≤ 59 → IsFree (λ c. c == k) (raised t)
raised-IsFree k [] h = tt
raised-IsFree k (c ∷ t) h = (ground arith, raised-IsFree k t h)

abbrev pub codec : Codec
codec = record {
  pbkdf2 = λ password salt n. password ++ salt;
  encode = raised;
  decode = λ t. some (lowered t);
}

-- The four fields of a payload, separated by the code point 59.
abbrev pub encode : Payload → Text
encode p =
    raised p.uid ++ 59 ∷ (raised p.username ++ 59 ∷ (raised p.role ++ 59 ∷ (p.expires + 60) ∷ []))

abbrev from_parts : List Text → Option Payload
from_parts (a ∷ b ∷ c ∷ (e ∷ []) ∷ []) =
    some (record { uid = lowered a; username = lowered b; role = lowered c; expires = e - 60 })
from_parts _ = none

abbrev pub decode : Text → Option Payload
decode t = from_parts (split (λ c. c == 59) t)

abbrev pub signer : Signer
signer = record { sign = λ secret t. raised (secret ++ t); encode = encode; decode = decode }

pub decode-encode : (p : Payload) → decode (encode p) ≡ some p
decode-encode p =
    let sep = λ (c : ℕ). c == 59 in
    let free = λ (t : Text). raised-IsFree 59 t (omega arith) in
    ap from_parts (
      split-append sep (raised p.uid)
        (raised p.username ++ 59 ∷ (raised p.role ++ 59 ∷ (p.expires + 60) ∷ [])) 59 (free p.uid)
        refl
      ∙ ap (λ ws. raised p.uid ∷ ws)
          (split-append sep (raised p.username) (raised p.role ++ 59 ∷ (p.expires + 60) ∷ []) 59
              (free p.username) refl
            ∙ ap (λ ws. raised p.username ∷ ws)
                (split-append sep (raised p.role) ((p.expires + 60) ∷ []) 59 (free p.role) refl
                  ∙ ap (λ ws. raised p.role ∷ ws)
                      (split-IsFree sep ((p.expires + 60) ∷ []) (ground arith, tt)))))
    ∙ ground (arith, lowered-raised p.uid, lowered-raised p.username, lowered-raised p.role)

pub encode-IsFree : (p : Payload) → IsFree (λ c. c == b'.') (encode p)
encode-IsFree p =
    let P = λ (c : ℕ). (c == b'.') ≡ false in
    let free = λ (t : Text). raised-IsFree b'.' t (omega arith) in
    All-append P (raised p.uid)
      (59 ∷ (raised p.username ++ 59 ∷ (raised p.role ++ 59 ∷ (p.expires + 60) ∷ []))) (free p.uid)
      (
        refl,
        All-append P (raised p.username) (59 ∷ (raised p.role ++ 59 ∷ (p.expires + 60) ∷ []))
            (free p.username)
            (
              refl,
              All-append P (raised p.role) (59 ∷ (p.expires + 60) ∷ []) (free p.role)
                  (refl, (ground arith, tt)),
            ),
      )

abbrev pub secret : Text
secret = text_of "k"

abbrev pub token : Text
token = make_session_token signer secret 5 (text_of "1") (text_of "ann") (text_of "user")

abbrev with_key : Request
with_key = record {
  method = text_of "GET";
  path = text_of "/api/v1/queues";
  api_key = text_of "key";
  cookie = [];
}

dispatch_api-guards_example :
    ((text_of "key" ≡ text_of "key") × (text_of "key" ≢ []) × (◌≡◌ {A = Option Payload} none none))
    ⊎ ((p : Payload) × (none ≡ some p) × IsSigned signer secret 6 [] p)
unfolding dispatch_api
dispatch_api-guards_example =
    dispatch_api-guards signer (text_of "/api/v1") (text_of "key") secret 6 with_key none refl refl
      refl

abbrev pub ann : Payload
ann = record {
  uid = text_of "1";
  username = text_of "ann";
  role = text_of "user";
  expires = 5 + 86400;
}

abbrev pub on_dashboard : Request
on_dashboard = record {
  method = text_of "GET";
  path = text_of "/admin";
  api_key = [];
  cookie = token;
}
