-- ===== src/Server/Administration.antt =====
-- The handlers of python/lapinq/server.py that write the users: create_user_handler,
-- update_role_handler, update_permissions_handler, delete_user_handler, change_password_handler.
pub mod Guarded
pub mod UsersPage
use lapinq.Prelude.{
  ℕ, zero, suc, String, Bool, true, false, ◌&&◌, ◌||◌, Option, none, some, List, ltb, if◌then◌else◌,
}
use lapinq.Prelude.Lists.{length}
use lapinq.Json.{Json, Items, nil, cons, Fields, end, field, str, arr, obj, is_truthy}
use lapinq.Scheduler.Cron.{Text}
use lapinq.Storage.Enqueue.{Result, ok, raise}
use lapinq.Storage.Users.{
  Codec, text_eq, Role, admin, user, User, Profile, authenticate, create_user, update_password,
  update_role, update_permissions, delete_user,
}
use lapinq.Server.Session.{Payload, text_of, is_empty}
use lapinq.Server.Enqueueing.{get}
use lapinq.Worker.Process.{strip}

-- The answer: 201 with the user, a text under "status", an error with its code, or an exception.
pub data Reply : Type 0 where
  created : User → Reply
  said : String → Reply
  refused : (code : ℕ) → String → Reply
  crashed : Reply

-- not user or user["role"] != "admin"
abbrev pub is_admin : Option Payload → Bool
is_admin none = false
is_admin (some p) = text_eq p.role (text_of "admin")

-- role in ("admin", "user")
abbrev pub role_of : Json → Option Role
role_of (str text) =
    if text_eq (text_of text) (text_of "admin")
    then some admin
    else if text_eq (text_of text) (text_of "user")
    then some user
    else none
role_of _ = none

abbrev pub yes_or : String → Bool × List User → Reply × List User
yes_or error (true, us) = (said "ok", us)
yes_or error (false, us) = (refused 404 error, us)

-- An error of create_user is answered with 400.
abbrev pub created_or : Result User × List User → Reply × List User
created_or (ok u, us) = (created u, us)
created_or (raise e, us) = (refused 400 "unique violation", us)

-- What a request brings, with the salt and the instant drawn for it; `target` is the `user_id` of the
-- path, none if it is no UUID, which the cast in the statement refuses.
pub record Call : Type 0 where
  pub caller : Option Payload
  pub target : Option ℕ
  pub body : Option Json
  pub id : ℕ
  pub now : ℕ
  pub salt : Text

-- `password` is a text, or the exception that its encoding raises is answered with 400.
pub create_with : Codec → Call → Text → Json → Option Role → List User → Reply × List User
create_with codec c username password none us = (refused 400 "role must be admin or user", us)
create_with codec c username (str password) (some role) us =
    created_or (create_user codec c.id c.now c.salt username (text_of password) role us)
create_with codec c username _ (some role) us = (refused 400 "password is no text", us)

pub create_user_body : Codec → Call → Json → Json → Json → List User → Reply × List User
unfolding create_with strip
create_user_body codec c (str username) password role us =
    if is_empty (text_of (strip username)) || not_given password
    then (refused 400 "username and password required", us)
    else create_with codec c (text_of (strip username)) password (role_of role) us
  where
    not_given : Json → Bool
    not_given j = if is_truthy j then false else true
create_user_body codec c _ password role us = (crashed, us)

pub create_user_handler : Codec → Call → List User → Reply × List User
unfolding create_user_body get
create_user_handler codec c us =
    if is_admin c.caller then by_body c.body else (refused 403 "forbidden", us)
  where
    by_body : Option Json → Reply × List User
    by_body none = (refused 400 "invalid JSON", us)
    by_body (some (obj f)) =
        create_user_body codec c (get "username" f (str "")) (get "password" f (str ""))
          (get "role" f (str "user")) us
    by_body (some _) = (crashed, us)

pub update_role_handler : Call → List User → Reply × List User
unfolding get update_role
update_role_handler c us =
    if is_admin c.caller then by_body c.body else (refused 403 "forbidden", us)
  where
    by_role : Option Role → Option ℕ → Reply × List User
    by_role none target = (refused 400 "role must be admin or user", us)
    by_role (some role) none = (crashed, us)
    by_role (some role) (some target) = yes_or "user not found" (update_role c.now target role us)

    by_body : Option Json → Reply × List User
    by_body none = (refused 400 "invalid JSON", us)
    by_body (some (obj f)) = by_role (role_of (get "role" f (str ""))) c.target
    by_body (some _) = (crashed, us)

pub update_permissions_handler : Call → List User → Reply × List User
unfolding update_permissions
update_permissions_handler c us =
    if is_admin c.caller then by_body c.body c.target else (refused 403 "forbidden", us)
  where
    by_body : Option Json → Option ℕ → Reply × List User
    by_body none target = (refused 400 "invalid JSON", us)
    by_body (some body) none = (crashed, us)
    by_body (some body) (some target) =
        yes_or "user not found" (update_permissions c.now target body us)

pub delete_user_handler : Call → List User → Reply × List User
unfolding delete_user
delete_user_handler c us =
    if is_admin c.caller then by_target c.target else (refused 403 "forbidden", us)
  where
    by_target : Option ℕ → Reply × List User
    by_target none = (crashed, us)
    by_target (some target) = yes_or "user not found" (delete_user target us)

-- len(value), of a text, a list or a dictionary
abbrev items_length : Items → ℕ
items_length nil = 0
items_length (cons j js) = suc (items_length js)

abbrev fields_length : Fields → ℕ
fields_length end = 0
fields_length (field name j fs) = suc (fields_length fs)

abbrev pub length_of : Json → Option ℕ
length_of (str text) = some (length (text_of text))
length_of (arr js) = some (items_length js)
length_of (obj fs) = some (fields_length fs)
length_of _ = none

-- The password of the session's user; `uuid_of` is the cast of the session's identifier.
pub set_password : Codec → (Text → Option ℕ) → Call → Payload → Json → List User → Reply × List User
unfolding update_password
set_password codec uuid_of c p (str text) us = elim (uuid_of p.uid) [
  | none ↦ (crashed, us)
  | some id ↦ done (update_password codec c.now c.salt id (text_of text) us)
]
  where
    done : Bool × List User → Reply × List User
    done (true, vs) = (said "ok", vs)
    done (false, vs) = (refused 500 "failed to update password", vs)
set_password codec uuid_of c p _ us = (crashed, us)

abbrev pub set_long_password :
    (Json → List User → Reply × List User) → Json → Option ℕ → List User → Reply × List User
set_long_password set new none us = (crashed, us)
set_long_password set new (some n) us =
    if ltb n 4 then (refused 400 "new password must be at least 4 characters", us) else set new us

-- A current password that is no text does not verify.
pub verified : Codec → (Json → Json) → Payload → Json → List User → Option Profile
verified codec from_column p (str current) us =
    authenticate codec from_column p.username (text_of current) us
verified codec from_column p _ us = none

pub change_password_body :
    Codec
    → (Json → Json)
    → (Text → Option ℕ)
    → Call
    → Payload
    → Json
    → Json
    → List User
    → Reply × List User
unfolding set_password verified
change_password_body codec from_column uuid_of c p current new us =
    if is_truthy current && is_truthy new
    then (elim (verified codec from_column p current us) [
      | none ↦ (refused 403 "current password is incorrect", us)
      | some profile ↦ set_long_password (set_password codec uuid_of c p) new (length_of new) us
    ])
    else (refused 400 "current_password and new_password required", us)

pub change_password_handler :
    Codec → (Json → Json) → (Text → Option ℕ) → Call → List User → Reply × List User
unfolding change_password_body get
change_password_handler codec from_column uuid_of c us = by_caller c.caller c.body
  where
    by_caller : Option Payload → Option Json → Reply × List User
    by_caller none body = (refused 401 "unauthorized", us)
    by_caller (some p) none = (refused 400 "invalid JSON", us)
    by_caller (some p) (some (obj f)) =
        change_password_body codec from_column uuid_of c p (get "current_password" f (str ""))
          (get "new_password" f (str "")) us
    by_caller (some p) (some _) = (crashed, us)

-- The five handlers.
pub data Route : Type 0 where
  creates sets_role sets_permissions deletes changes_password : Route

unfoldable pub administer :
    Codec → (Json → Json) → (Text → Option ℕ) → Route → Call → List User → Reply × List User
unfolding create_user_handler update_role_handler update_permissions_handler delete_user_handler
    change_password_handler
administer codec from_column uuid_of creates c us = create_user_handler codec c us
administer codec from_column uuid_of sets_role c us = update_role_handler c us
administer codec from_column uuid_of sets_permissions c us = update_permissions_handler c us
administer codec from_column uuid_of deletes c us = delete_user_handler c us
administer codec from_column uuid_of changes_password c us =
    change_password_handler codec from_column uuid_of c us
