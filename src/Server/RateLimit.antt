-- ===== src/Server/RateLimit.antt =====
-- RateLimitMiddleware of python/lapinq/server.py. Instants and the window are in microseconds.
pub mod Dict
pub mod Window
pub mod Examples
use lapinq.Prelude.{ℕ, ◌+◌, String, Bool, true, false, List, [], ◌∷◌, ◌++◌, ltb, leb, if◌then◌else◌}
use lapinq.Prelude.Lists.{any, filter, length, take}
use Dict.{Clients, get, put}

pub record Limiter : Type 0 where
  pub max_requests : ℕ
  pub window : ℕ
  pub max_clients : ℕ

-- t > now - window
abbrev pub is_recent : ℕ → ℕ → ℕ → Bool
is_recent window now t = ltb now (t + window)

-- max(timestamps)
pub latest : List ℕ → ℕ
latest [] = 0
latest (t ∷ ts) = let rest = latest ts in if ltb rest t then t else rest

-- sorted(items, key=..., reverse=True), which keeps the order of equals
pub place_client : String × List ℕ → Clients → Clients
unfolding latest
place_client c [] = c ∷ []
place_client c (d ∷ ds) =
    let rest = place_client c ds in if ltb (latest c.1) (latest d.1) then d ∷ rest else c ∷ d ∷ ds

pub sort_clients : Clients → Clients
unfolding place_client
sort_clients [] = []
sort_clients (c ∷ cs) = place_client c (sort_clients cs)

pub evict_stale : ℕ → ℕ → Clients → Clients
evict_stale window now = filter (λ c. any (is_recent window now) c.1)

pub evict : Limiter → ℕ → Clients → Clients
unfolding evict_stale sort_clients
evict l now requests =
    let live = evict_stale l.window now requests in
    if ltb l.max_clients (length live) then take l.max_clients (sort_clients live) else live

-- The timestamps of a client that still count.
pub recent : Limiter → ℕ → String → Clients → List ℕ
recent l now ip requests = filter (is_recent l.window now) (get ip requests)

-- A request to the API: whether it is passed on, and the new table. A request to another path is passed
-- on and leaves the table alone.
pub dispatch : Limiter → Bool → String → ℕ → Clients → Bool × Clients
unfolding evict recent
dispatch l is_api ip now requests =
    if is_api
    then (let live = evict l now requests in
        let timestamps = recent l now ip live in
        if leb l.max_requests (length timestamps)
        then (false, live)
        else (true, put ip (timestamps ++ now ∷ []) live))
    else (true, requests)
