-- ===== src/Server/Login/Examples.antt =====
-- A user who is created, logs in and opens a page.
use lapinq.Prelude.{
  ℕ, ◌≡◌, refl, ap, map, true, ◌&&◌, if◌then◌else◌, none, some, [], ◌∷◌, ◌++◌, arith,
}
use lapinq.Scheduler.Cron.{Text}
use lapinq.Storage.Users.Shown.{list_users}
use lapinq.Server.Administration.UsersPage.{admin_users_page, users_page, forbidden}
use lapinq.Storage.Users.{
  User, user, new_user, create_user, insert_user, find_username, get_user_by_id,
}
use lapinq.Server.Session.{text_of, goes_on, dispatch}
use lapinq.Server.Session.Examples.{
  codec, signer, secret, ann, on_dashboard, lowered-raised, raised-IsFree, decode-encode,
  encode-IsFree,
}
use lapinq.Storage.Queries.{queue_stats}
use lapinq.Server.Page.{sorted_set}
use lapinq.Server.Login.{welcome, login, logout, session, current_user}
use lapinq.Server.Session.Admission.{reached, is_open}
use lapinq.Server.Login.Sessions.{logged_in, is_admin_role, login-admits}

abbrev id_text : ℕ → Text
id_text n = n ∷ []

abbrev prefix : Text
prefix = text_of "/api/v1"

login-admits_example :
    (token : Text) × (login codec signer
        (λ j. j)
        id_text
        secret
        5
        (some (text_of "ann", text_of "pw"))
        (new_user codec 1 10 (text_of "ab") (text_of "ann") (text_of "pw") user ∷ [])
      ≡ welcome token)
    × (dispatch signer prefix none secret 6 (record on_dashboard { cookie = token })
        ≡ goes_on (reached none (logged_in id_text 1 5 (text_of "ann") user)))
    × (admin_users_page
          (λ j. j)
          (λ s t. true)
          (reached none (logged_in id_text 1 5 (text_of "ann") user))
          []
          []
        ≡ (if is_admin_role user && is_open none
            then users_page
                (list_users (λ j. j) [])
                (sorted_set (map (λ s. s.queue_name) (queue_stats (λ s t. true) [])))
            else forbidden))
unfolding create_user insert_user find_username
login-admits_example =
    login-admits codec signer (λ j. j) (λ s t. true) id_text prefix none secret 1 10 5 6
      (text_of "ab") (text_of "ann") (text_of "pw") (text_of "pw") user []
      (new_user codec 1 10 (text_of "ab") (text_of "ann") (text_of "pw") user ∷ [])
      (new_user codec 1 10 (text_of "ab") (text_of "ann") (text_of "pw") user) on_dashboard [] []
      ((λ h. ap some (lowered-raised h)), (λ h. raised-IsFree b':' h (omega arith)))
      (decode-encode, encode-IsFree, (λ k t. raised-IsFree b'.' (k ++ t) (omega arith)))
      (ground arith) refl refl (omega arith) refl refl refl refl

gone : current_user (λ j. j) (λ t. some 1) (some ann) [] ≡ session ann
unfolding current_user get_user_by_id
gone = refl

left : logout (text_of "cookie") ≡ []
unfolding logout
left = refl

abbrev old : User
old = record (new_user codec 1 10 (text_of "ab") (text_of "ann") (text_of "pw") user) {
  created_at = 3;
}

abbrev young : User
young = record (new_user codec 2 10 (text_of "ab") (text_of "bob") (text_of "pw") user) {
  created_at = 4;
}

in_order : map (λ p. p.1) (list_users (λ j. j) (young ∷ old ∷ [])) ≡ 3 ∷ 4 ∷ []
in_order = refl

not_for_users : admin_users_page (λ j. j) (λ s t. true) none [] [] ≡ forbidden
not_for_users = refl
