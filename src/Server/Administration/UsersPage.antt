-- ===== src/Server/Administration/UsersPage.antt =====
-- The handler admin_users_page of python/lapinq/server.py, up to its HTML.
use lapinq.Prelude.{ℕ, String, Bool, Option, List, map, if◌then◌else◌}
use lapinq.Json.{Json}
use lapinq.Storage.Task.{Table}
use lapinq.Storage.Queries.{queue_stats}
use lapinq.Storage.Users.{User, Profile}
use lapinq.Storage.Users.Shown.{list_users}
use lapinq.Server.Session.{Payload}
use lapinq.Server.Administration.{is_admin}
use lapinq.Server.Page.{sorted_set}

-- The page is made of the users and of the names of the queues; `forbidden` is 403.
pub data Shown : Type 0 where
  forbidden : Shown
  users_page : List (Profile × ℕ) → List String → Shown

abbrev pub admin_users_page :
    (Json → Json) → (String → String → Bool) → Option Payload → List User → Table → Shown
admin_users_page from_column collates caller us ts =
    if is_admin caller
    then users_page (list_users from_column us)
        (sorted_set (map (λ q. q.queue_name) (queue_stats collates ts)))
    else forbidden
