-- ===== src/Storage/Users/Passwords.antt =====
-- A stored password verifies exactly the passwords with its digest, and a new user can log in.
use lapinq.Prelude.{
  ℕ, ◌≡◌, refl, ap, ◌∙◌, true, none, some, List, [], ◌∷◌, ◌++◌, ◌==◌, arith, if◌then◌else◌,
}
use lapinq.Prelude.Int.{pos}
use lapinq.Json.{Json, obj, end}
use lapinq.Storage.Enqueue.{ok}
use lapinq.Scheduler.Cron.{Text, split}
use lapinq.Scheduler.Cron.Values.{IsFree, split-IsFree, split-append}
use lapinq.Storage.Users.{
  Codec, text_eq, iterations_text, pbkdf2_iterations, pbkdf2_text, sha256_text, hash_password,
  check_digest, verify_parts, verify_password, Role, User, find_username, if_dict, profile_of,
  authenticate, insert_user, new_user, create_user,
}

pub text_eq_refl : (t : Text) → text_eq t t ≡ true
text_eq_refl [] = refl
text_eq_refl (c ∷ t) = ground (arith, text_eq_refl t)

-- Base64 has no colon and is undone by decoding.
abbrev pub IsFaithful : Codec → Type 0
IsFaithful codec =
    ((h : Text) → codec.decode (codec.encode h) ≡ some h)
    × ((h : Text) → IsFree (λ c. c == b':') (codec.encode h))

split-stored :
    (salt hash : Text)
    → IsFree (λ c. c == b':') salt
    → IsFree (λ c. c == b':') hash
    → split
        (λ c. c == b':')
        (pbkdf2_text
          ++ b':' ∷ (sha256_text ++ b':' ∷ (iterations_text ++ b':' ∷ (salt ++ b':' ∷ hash))))
      ≡ pbkdf2_text ∷ sha256_text ∷ iterations_text ∷ salt ∷ hash ∷ []
split-stored salt hash h k =
    let sep = λ (c : ℕ). c == b':' in
    let salted = salt ++ b':' ∷ hash in
    let counted = iterations_text ++ b':' ∷ salted in
    split-append sep pbkdf2_text (sha256_text ++ b':' ∷ counted) b':' (ground arith) refl
    ∙ ap (λ ws. pbkdf2_text ∷ ws)
        (split-append sep sha256_text counted b':' (ground arith) refl
          ∙ ap (λ ws. sha256_text ∷ ws)
              (split-append sep iterations_text salted b':' (ground arith) refl
                ∙ ap (λ ws. iterations_text ∷ ws)
                    (split-append sep salt hash b':' h refl
                      ∙ ap (λ ws. salt ∷ ws) (split-IsFree sep hash k))))

verify_password-hash_password :
    (codec : Codec) (salt p q : Text)
    → IsFaithful codec
    → IsFree (λ c. c == b':') salt
    → verify_password codec q (hash_password codec salt p)
      ≡ text_eq (codec.pbkdf2 q salt pbkdf2_iterations) (codec.pbkdf2 p salt pbkdf2_iterations)
unfolding verify_password hash_password verify_parts
verify_password-hash_password codec salt p q (back, free) h =
    let digest = codec.pbkdf2 p salt pbkdf2_iterations in
    ap (verify_parts codec q) (split-stored salt (codec.encode digest) h (free digest))
    ∙ ap (check_digest codec q (some (pos pbkdf2_iterations)) salt) (back digest)

find_username-append :
    (name : Text) (new : User) (us : List User)
    → find_username name us ≡ none
    → text_eq new.username name ≡ true
    → find_username name (us ++ new ∷ []) ≡ some new
unfolding find_username
find_username-append name new [] h k = ground (arith, k)
find_username-append name new (u ∷ us) h k = ground (arith, k, find_username-append name new us)

insert_user-ok :
    (new r : User) (us vs : List User)
    → insert_user new us ≡ (ok r, vs)
    → (find_username new.username us ≡ none) × (vs ≡ us ++ new ∷ [])
unfolding insert_user
insert_user-ok new r us vs e = (ground arith, ground arith)

authenticate-found :
    (codec : Codec) (from_column : Json → Json) (name q : Text) (vs : List User) (u : User)
    → find_username name vs ≡ some u
    → authenticate codec from_column name q vs
      ≡ (if verify_password codec q u.password_hash then some (profile_of from_column u) else none)
unfolding authenticate
authenticate-found codec from_column name q vs u e = rw (e, authenticate) refl

-- If create_user succeeds, authenticate with that name and any password gives the profile with the
-- given id, name and role when the password has the digest of the one that was set, and None when
-- it has not; Base64 has no colon and is undone by decoding, and the salt has no colon.
pub authenticate-create_user :
    (codec : Codec) (from_column : Json → Json) (id now : ℕ) (salt name p q : Text) (role : Role)
    (us vs : List User) (r : User)
    → IsFaithful codec
    → IsFree (λ c. c == b':') salt
    → create_user codec id now salt name p role us ≡ (ok r, vs)
    → authenticate codec from_column name q vs ≡ (
        if text_eq (codec.pbkdf2 q salt pbkdf2_iterations) (codec.pbkdf2 p salt pbkdf2_iterations)
        then some (record {
          id = id;
          username = name;
          role = role;
          permissions = if_dict (from_column (obj end));
        })
        else none)
unfolding create_user new_user profile_of
authenticate-create_user codec from_column id now salt name p q role us vs r faithful free e =
    let new = new_user codec id now salt name p role in
    let (absent, added) = insert_user-ok new r us vs e in
    authenticate-found codec from_column name q vs new
      (ap (find_username name) added ∙ find_username-append name new us absent (text_eq_refl name))
    ∙ ap (λ b. if b then some (profile_of from_column new) else none)
        (verify_password-hash_password codec salt p q faithful free)
