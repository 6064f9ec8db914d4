-- ===== src/Server/RateLimit/Window.antt =====
-- No client is let through more than `max_requests` times within any window, as long as the table never
-- overflows.
use lapinq.Prelude.{
  ℕ, ◌≤◌, String, ◌≡◌, refl, ◌∙◌, true, false, ◌&&◌, List, [], ◌∷◌, ◌++◌, arith, ltb, leb,
  if◌then◌else◌, str_eq, eq_iff, Bool-cases, inl, inr,
}
use lapinq.Prelude.Lists.{any, count, filter, length, length-filter, count-append}
use lapinq.Server.RateLimit.Dict.{
  Clients, get, put, get-put, IsDict, IsDict-put, IsDict-filter, get-filter,
}
use lapinq.Server.RateLimit.{Limiter, is_recent, evict_stale, evict, recent, dispatch}

-- The requests that were passed on, the newest first.
abbrev pub Log : Type 0
Log = List (String × ℕ)

-- How many requests of a client in the log lie within the window that ends at `s`.
abbrev pub passed_in : Limiter → String → ℕ → Log → ℕ
passed_in l ip s = count (λ a. str_eq a.0 ip && is_recent l.window s a.1)

-- A run of the middleware over requests to the API, each with its client and its instant.
unfoldable pub run : Limiter → List (String × ℕ) → Clients → Log → Clients × Log
run l [] cs log = (cs, log)
run l ((ip, now) ∷ rs) cs log =
    let (ok, cs') = dispatch l true ip now cs in run l rs cs' (if ok then (ip, now) ∷ log else log)

-- The requests come in order, from `t` on and not after `s`.
abbrev pub IsOrdered : ℕ → List (String × ℕ) → ℕ → Type 0
IsOrdered t [] s = t ≤ s
IsOrdered t (r ∷ rs) s = (t ≤ r.1) × IsOrdered r.1 rs s

-- The table never holds more than `max_clients` clients with a timestamp in the window.
abbrev pub NeverFull : Limiter → List (String × ℕ) → Clients → Type 0
NeverFull l [] cs = Unit
NeverFull l (r ∷ rs) cs =
    (length (evict_stale l.window r.1 cs) ≤ l.max_clients)
    × NeverFull l rs (dispatch l true r.0 r.1 cs).1

-- The timestamps that the table keeps are those of the log, for every window that ends at `t` or later.
record Agrees (l : Limiter) (t : ℕ) (cs : Clients) (log : Log) : Type 0 where
  dict : IsDict cs
  counts :
      (j : String) (s : ℕ) → t ≤ s → count (is_recent l.window s) (get j cs) ≡ passed_in l j s log
  within : (j : String) → passed_in l j t log ≤ l.max_requests

-- A timestamp that is not recent will not be.
count-stale :
    (w t s : ℕ) (ts : List ℕ)
    → t ≤ s
    → any (is_recent w t) ts ≡ false
    → count (is_recent w s) ts ≡ 0
count-stale w t s [] le h = refl
count-stale w t s (u ∷ ts) le h = ground (arith, count-stale w t s ts le)

count-filter_recent :
    (w t s : ℕ) (ts : List ℕ)
    → t ≤ s
    → count (is_recent w s) (filter (is_recent w t) ts) ≡ count (is_recent w s) ts
count-filter_recent w t s [] le = refl
count-filter_recent w t s (u ∷ ts) le = ground (arith, count-filter_recent w t s ts le)

passed_in_mono :
    (l : Limiter) (j : String) (t s : ℕ) (log : Log)
    → t ≤ s
    → passed_in l j s log ≤ passed_in l j t log
passed_in_mono l j t s [] le = omega arith
passed_in_mono l j t s (a ∷ log) le = ground (arith, passed_in_mono l j t s log le)

-- The eviction of stale clients loses nothing that counts.
count-evict :
    (l : Limiter) (now s : ℕ) (j : String) (cs : Clients)
    → IsDict cs
    → length (evict_stale l.window now cs) ≤ l.max_clients
    → now ≤ s
    → count (is_recent l.window s) (get j (evict l now cs))
      ≡ count (is_recent l.window s) (get j cs)
unfolding evict evict_stale
count-evict l now s j cs d fits le = ground (
  arith,
  get-filter (any (is_recent l.window now)) j cs d refl,
  count-stale l.window now s (get j cs) le,
)

evict-IsDict :
    (l : Limiter) (now : ℕ) (cs : Clients)
    → IsDict cs
    → length (evict_stale l.window now cs) ≤ l.max_clients
    → IsDict (evict l now cs)
unfolding evict evict_stale
evict-IsDict l now cs d fits =
    ground (arith, IsDict-filter (λ c. any (is_recent l.window now) c.1) cs d)

module _ (l : Limiter) (t now : ℕ) (ip : String) (cs : Clients) (log : Log) (a : Agrees l t cs log)
    (le : t ≤ now) (fits : length (evict_stale l.window now cs) ≤ l.max_clients) where
  live-counts :
      (j : String) (s : ℕ)
      → now ≤ s
      → count (is_recent l.window s) (get j (evict l now cs)) ≡ passed_in l j s log
  live-counts j s ns = count-evict l now s j cs a.dict fits ns ∙ a.counts j s (omega arith)

  length-recent : length (recent l now ip (evict l now cs)) ≡ passed_in l ip now log
  unfolding recent
  length-recent =
      length-filter (is_recent l.window now) (get ip (evict l now cs))
      ∙ live-counts ip now (omega arith)

  refused-Agrees : Agrees l now (evict l now cs) log
  refused-Agrees = record {
    dict = evict-IsDict l now cs a.dict fits;
    counts = live-counts;
    within = λ j. omega (arith, passed_in_mono l j t now log le, a.within j);
  }

  passed-Agrees :
      leb l.max_requests (length (recent l now ip (evict l now cs))) ≡ false
      → Agrees l now
          (put ip (recent l now ip (evict l now cs) ++ now ∷ []) (evict l now cs))
          ((ip, now) ∷ log)
  unfolding recent
  passed-Agrees room = record {
    dict = IsDict-put ip _ (evict l now cs) (evict-IsDict l now cs a.dict fits);
    counts = λ j s ns. ground (
      arith,
      get-put ip j (recent l now ip (evict l now cs) ++ now ∷ []) (evict l now cs),
      count-append (is_recent l.window s) (recent l now ip (evict l now cs)) (now ∷ []),
      count-filter_recent l.window now s (get ip (evict l now cs)) ns,
      live-counts j s ns,
      live-counts ip s ns,
      eq_iff ip j,
    );
    within = λ j.
        ground (arith, length-recent, passed_in_mono l j t now log le, a.within j, eq_iff ip j);
  }

  dispatch-Agrees :
      Agrees l now
        (dispatch l true ip now cs).1
        (if (dispatch l true ip now cs).0 then (ip, now) ∷ log else log)
  unfolding dispatch
  dispatch-Agrees =
      elim (Bool-cases (leb l.max_requests (length (recent l now ip (evict l now cs))))) [
        | inl full ↦ rw full refused-Agrees
        | inr room ↦ rw room (passed-Agrees room)
      ]

Agrees-later :
    (l : Limiter) (t s : ℕ) (cs : Clients) (log : Log)
    → t ≤ s
    → Agrees l t cs log
    → Agrees l s cs log
Agrees-later l t s cs log le a = record {
  dict = a.dict;
  counts = λ j u su. a.counts j u (omega arith);
  within = λ j. omega (arith, passed_in_mono l j t s log le, a.within j);
}

run-Agrees :
    (l : Limiter) (t s : ℕ) (rs : List (String × ℕ)) (cs : Clients) (log : Log)
    → Agrees l t cs log
    → IsOrdered t rs s
    → NeverFull l rs cs
    → Agrees l s (run l rs cs log).0 (run l rs cs log).1
unfolding run
run-Agrees l t s [] cs log a le full = Agrees-later l t s cs log le a
run-Agrees l t s ((ip, now) ∷ rs) cs log a (le, order) (fits, full) =
    run-Agrees l now s rs _ _ (dispatch-Agrees l t now ip cs log a le fits) order full

empty-Agrees : (l : Limiter) → Agrees l 0 [] []
unfolding get
empty-Agrees l = record { dict = tt; counts = λ j s le. refl; within = λ j. omega arith }

-- From an empty table, over requests that come in the order of their instants and while the table
-- never overflows: within the window that ends at any instant `s` at or after the last request,
-- each client has been let through at most `max_requests` times.
pub run-within_limit :
    (l : Limiter) (s : ℕ) (rs : List (String × ℕ)) (ip : String)
    → IsOrdered 0 rs s
    → NeverFull l rs []
    → passed_in l ip s (run l rs [] []).1 ≤ l.max_requests
run-within_limit l s rs ip order full =
    (run-Agrees l 0 s rs [] [] (empty-Agrees l) order full).within ip

-- After such a history, and if the table does not overflow then either, a request at `now` is let
-- through exactly when its client has been let through fewer than `max_requests` times within the
-- window.
pub dispatch-decides :
    (l : Limiter) (now : ℕ) (rs : List (String × ℕ)) (ip : String)
    → IsOrdered 0 rs now
    → NeverFull l rs []
    → length (evict_stale l.window now (run l rs [] []).0) ≤ l.max_clients
    → (dispatch l true ip now (run l rs [] []).0).0
      ≡ ltb (passed_in l ip now (run l rs [] []).1) l.max_requests
unfolding dispatch
dispatch-decides l now rs ip order full fits =
    let a = run-Agrees l 0 now rs [] [] (empty-Agrees l) order full in
    ground
      (arith, length-recent l now now ip (run l rs [] []).0 (run l rs [] []).1 a (omega arith) fits)
