-- ===== src/Server/RateLimit/Examples.antt =====
-- Two clients and a limit of two requests in ten microseconds, on which the theorems are applied.
use lapinq.Prelude.{ℕ, ◌≤◌, ◌≡◌, refl, true, String, List, [], ◌∷◌, arith, ltb}
use lapinq.Server.RateLimit.{Limiter, dispatch, evict_stale}
use lapinq.Server.RateLimit.Dict.{get, put}
use lapinq.Server.RateLimit.Window.{
  passed_in, run, IsOrdered, NeverFull, run-within_limit, dispatch-decides,
}

abbrev limiter : Limiter
limiter = record { max_requests = 2; window = 10; max_clients = 5 }

abbrev requests : List (String × ℕ)
requests = ("a", 1) ∷ ("b", 2) ∷ ("a", 3) ∷ ("a", 4) ∷ ("a", 12) ∷ []

ordered : IsOrdered 0 requests 12
ordered = omega arith

roomy : NeverFull limiter requests []
unfolding dispatch evict_stale get put
roomy = omega arith

log : (run limiter requests [] []).1 ≡ ("a", 12) ∷ ("a", 3) ∷ ("b", 2) ∷ ("a", 1) ∷ []
unfolding run dispatch get put
log = refl

run-within_limit_example : passed_in limiter "a" 12 (run limiter requests [] []).1 ≤ 2
run-within_limit_example = run-within_limit limiter 12 requests "a" ordered roomy

dispatch-decides_example :
    (dispatch limiter true "b" 12 (run limiter requests [] []).0).0
    ≡ ltb (passed_in limiter "b" 12 (run limiter requests [] []).1) 2
unfolding run dispatch evict_stale get put
dispatch-decides_example = dispatch-decides limiter 12 requests "b" ordered roomy (omega arith)
