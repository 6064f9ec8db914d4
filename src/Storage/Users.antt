-- ===== src/Storage/Users.antt =====
-- The users of python/lapinq/storage.py: the table `lapinq_users`, passwords, and the operations of
-- `Storage` on them. Texts are lists of code points.
pub mod Passwords
pub mod Shown
mod Examples
use lapinq.Prelude.{
  ℕ, zero, suc, Bool, true, false, not, ◌&&◌, Option, none, some, List, [], ◌∷◌, ◌++◌, ◌==◌,
  if◌then◌else◌,
}
use lapinq.Prelude.Int.{ℤ, pos, negsuc}
use lapinq.Prelude.Lists.{count, filter}
use lapinq.Prelude.Rows.{find, update_where}
use lapinq.Json.{Json, obj, end}
use lapinq.Storage.Enqueue.{Result, ok, raise, unique_violation}
use lapinq.Scheduler.Cron.{Text, split, parse_int}

-- hashlib.pbkdf2_hmac("sha256", password, salt, iterations), base64.b64encode, base64.b64decode.
pub record Codec : Type 0 where
  pub pbkdf2 : Text → Text → ℕ → Text
  pub encode : Text → Text
  pub decode : Text → Option Text

abbrev pub text_eq : Text → Text → Bool
text_eq [] [] = true
text_eq (a ∷ s) (b ∷ t) = a == b && text_eq s t
text_eq _ _ = false

-- "600000", the text of PBKDF2_ITERATIONS
abbrev pub iterations_text : Text
iterations_text = b'6' ∷ b'0' ∷ b'0' ∷ b'0' ∷ b'0' ∷ b'0' ∷ []

abbrev pub pbkdf2_iterations : ℕ
pbkdf2_iterations = 600_000

abbrev pub pbkdf2_text : Text
pbkdf2_text = b'p' ∷ b'b' ∷ b'k' ∷ b'd' ∷ b'f' ∷ b'2' ∷ []

abbrev pub sha256_text : Text
sha256_text = b's' ∷ b'h' ∷ b'a' ∷ b'2' ∷ b'5' ∷ b'6' ∷ []

-- `salt` is what secrets.token_hex(16) draws.
pub hash_password : Codec → Text → Text → Text
hash_password codec salt password =
    pbkdf2_text
    ++ b':'
      ∷ (sha256_text
          ++ b':'
            ∷ (iterations_text
                ++ b':'
                  ∷ (salt ++ b':' ∷ codec.encode (codec.pbkdf2 password salt pbkdf2_iterations))))

-- pbkdf2_hmac refuses a number of iterations below one.
pub check_digest : Codec → Text → Option ℤ → Text → Option Text → Bool
check_digest codec password (some (pos (suc n))) salt (some expected) =
    text_eq (codec.pbkdf2 password salt (suc n)) expected
check_digest codec password _ salt _ = false

unfoldable pub verify_parts : Codec → Text → List Text → Bool
unfolding check_digest parse_int
verify_parts codec password (scheme ∷ digest ∷ iterations ∷ salt ∷ hash ∷ []) =
    text_eq scheme pbkdf2_text
    && text_eq digest sha256_text
    && check_digest codec password (parse_int iterations) salt (codec.decode hash)
verify_parts codec password _ = false

pub verify_password : Codec → Text → Text → Bool
unfolding split verify_parts
verify_password codec password stored = verify_parts codec password (split (λ c. c == b':') stored)

pub data Role : Type 0 where
  admin user : Role

pub record User : Type 0 where
  pub id : ℕ
  pub username : Text
  pub password_hash : Text
  pub role : Role
  pub permissions : Json
  pub created_at : ℕ
  pub updated_at : ℕ

-- SELECT ... WHERE username = $1
unfoldable pub find_username : Text → List User → Option User
find_username name [] = none
find_username name (u ∷ us) =
    let rest = find_username name us in if text_eq u.username name then some u else rest

pub record Profile : Type 0 where
  pub id : ℕ
  pub username : Text
  pub role : Role
  pub permissions : Json

-- permissions if isinstance(permissions, dict) else {}
abbrev pub if_dict : Json → Json
if_dict (obj fields) = obj fields
if_dict _ = obj end

-- `from_column` is what the driver makes of a JSONB value.
pub profile_of : (Json → Json) → User → Profile
profile_of from_column u = record {
  id = u.id;
  username = u.username;
  role = u.role;
  permissions = if_dict (from_column u.permissions);
}

unfoldable pub authenticate : Codec → (Json → Json) → Text → Text → List User → Option Profile
unfolding find_username verify_password profile_of
authenticate codec from_column username password us = elim (find_username username us) [
  | none ↦ none
  | some u ↦
      if verify_password codec password u.password_hash
      then some (profile_of from_column u)
      else none
]

unfoldable pub get_user_by_id : (Json → Json) → ℕ → List User → Option Profile
unfolding profile_of
get_user_by_id from_column user_id us = elim (find (λ u. u.id) user_id us) [
  | none ↦ none
  | some u ↦ some (profile_of from_column u)
]

-- INSERT ... RETURNING, under the primary key and UNIQUE (username).
unfoldable pub insert_user : User → List User → Result User × List User
unfolding find_username
insert_user new us = elim (find (λ u. u.id) new.id us) [
  | some old ↦ (raise unique_violation, us)
  | none ↦ elim (find_username new.username us) [
    | some old ↦ (raise unique_violation, us)
    | none ↦ (ok new, us ++ new ∷ [])
  ]
]

pub new_user : Codec → ℕ → ℕ → Text → Text → Text → Role → User
unfolding hash_password
new_user codec id now salt username password role = record {
  id = id;
  username = username;
  password_hash = hash_password codec salt password;
  role = role;
  permissions = obj end;
  created_at = now;
  updated_at = now;
}

unfoldable pub create_user :
    Codec → ℕ → ℕ → Text → Text → Text → Role → List User → Result User × List User
unfolding insert_user new_user
create_user codec id now salt username password role us =
    insert_user (new_user codec id now salt username password role) us

-- The default administrator, whose name and password are `lapinq`.
abbrev pub lapinq_text : Text
lapinq_text = b'l' ∷ b'a' ∷ b'p' ∷ b'i' ∷ b'n' ∷ b'q' ∷ []

unfoldable pub ensure_default_admin : Codec → ℕ → ℕ → Text → List User → List User
unfolding insert_user new_user
ensure_default_admin codec id now salt [] =
    (insert_user (new_user codec id now salt lapinq_text lapinq_text admin) []).1
ensure_default_admin codec id now salt (u ∷ us) = u ∷ us

-- UPDATE lapinq_users SET ..., updated_at = now() WHERE id = $2, and whether it met a row.
pub update_user : ℕ → ℕ → (User → User) → List User → Bool × List User
update_user now user_id change us = (
  not (count (λ u. u.id == user_id) us == 0),
  update_where (λ u. u.id == user_id) (λ u. record (change u) { updated_at = now }) us,
)

unfoldable pub update_password : Codec → ℕ → Text → ℕ → Text → List User → Bool × List User
unfolding update_user hash_password
update_password codec now salt user_id new_password =
    update_user now user_id
      (λ u. record u { password_hash = hash_password codec salt new_password })

unfoldable pub update_role : ℕ → ℕ → Role → List User → Bool × List User
unfolding update_user
update_role now user_id new_role = update_user now user_id (λ u. record u { role = new_role })

unfoldable pub update_permissions : ℕ → ℕ → Json → List User → Bool × List User
unfolding update_user
update_permissions now user_id permissions =
    update_user now user_id (λ u. record u { permissions = permissions })

unfoldable pub delete_user : ℕ → List User → Bool × List User
delete_user user_id us =
    (not (count (λ u. u.id == user_id) us == 0), filter (λ u. not (u.id == user_id)) us)
