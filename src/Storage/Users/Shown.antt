-- ===== src/Storage/Users/Shown.antt =====
-- list_users of python/lapinq/storage.py.
use lapinq.Prelude.{ℕ, List, [], ◌∷◌, map, ltb, if◌then◌else◌}
use lapinq.Json.{Json}
use lapinq.Storage.Users.{User, Profile, profile_of}

-- ORDER BY created_at, by insertion; PostgreSQL promises no order of equals.
abbrev pub place_user : User → List User → List User
place_user u [] = u ∷ []
place_user u (v ∷ vs) =
    let rest = place_user u vs in if ltb v.created_at u.created_at then v ∷ rest else u ∷ v ∷ vs

abbrev pub oldest_first : List User → List User
oldest_first [] = []
oldest_first (u ∷ us) = place_user u (oldest_first us)

-- A profile with the instant of its creation.
abbrev pub listed_user : (Json → Json) → User → Profile × ℕ
listed_user from_column u = (profile_of from_column u, u.created_at)

abbrev pub list_users : (Json → Json) → List User → List (Profile × ℕ)
list_users from_column us = map (listed_user from_column) (oldest_first us)
