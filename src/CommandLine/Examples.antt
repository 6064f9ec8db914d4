-- ===== src/CommandLine/Examples.antt =====
-- Commands on the small task table.
use lapinq.Prelude.{◌≡◌, refl, String, Bool, true, false, none, some, ◌∷◌}
use lapinq.Prelude.Int.{pos}
use lapinq.Json.{Json}
use lapinq.Storage.Task.{Table}
use lapinq.Storage.Queries.{get_task}
use lapinq.Storage.Examples.{task, three}
use lapinq.Server.Handlers.{crash, get_task_handler}
use lapinq.Server.Remaining.{task_response, format_ttl}
use lapinq.CommandLine.{list, get, run_task}

abbrev contains : String → String → Bool
contains a b = true

abbrev text : Json → String
text j = ""

no_failed : (run_task contains text 30 (list none (some "failed") (pos 20) true) three).1 ≡ three
unfolding run_task
no_failed = refl

-- The task 2 has a time to live that ends after the year 9999.
abbrev far : Table
far = record (task 2 (pos 0) 6) { ttl_seconds = some (pos 400_000_000_000_000_000) } ∷ three

-- The handler answers with 500, and the command exits with 0.
far_off :
    (get_task_handler false 30 (some 2) far ≡ crash)
    × ((run_task contains text 30 (get (some 2) true) far).0.code ≡ 0)
unfolding run_task get_task_handler get_task task_response format_ttl
far_off = (refl, refl)
