-- ===== src/Storage/Users/Examples.antt =====
-- Tests of the operations on the users.
use lapinq.Prelude.{ℕ, ◌≡◌, refl, true, false, some, List, [], ◌∷◌, map}
use lapinq.Json.{obj, end}
use lapinq.Scheduler.Cron.{Text}
use lapinq.Storage.Users.{
  Codec, lapinq_text, user, User, find_username, insert_user, get_user_by_id, ensure_default_admin,
  update_password, update_role, update_permissions, delete_user,
}

abbrev plain : Codec
plain = record { pbkdf2 = λ p s n. p; encode = λ t. t; decode = λ t. some t }

abbrev first : List User
first = ensure_default_admin plain 1 10 (b'a' ∷ []) []

roles : List User → List (ℕ × Text)
roles = map (λ u. (u.id, u.username))

default_admin : roles first ≡ (1, lapinq_text) ∷ []
unfolding ensure_default_admin insert_user find_username roles
default_admin = refl

demoted :
    (get_user_by_id (λ j. j) 1 (update_role 20 1 user first).1)
    ≡ some (record { id = 1; username = lapinq_text; role = user; permissions = obj end })
unfolding ensure_default_admin insert_user find_username update_role get_user_by_id
demoted = refl

no_such_user :
    ((update_password plain 20 [] 2 [] first).0 ≡ false)
    × ((update_permissions 20 2 (obj end) first).0 ≡ false)
unfolding ensure_default_admin insert_user find_username update_password update_permissions
no_such_user = (refl, refl)

deleted : delete_user 1 first ≡ (true, [])
unfolding ensure_default_admin insert_user find_username delete_user
deleted = refl
