-- ===== src/Server/RateLimit/Dict.antt =====
-- Python's dict from client addresses to timestamps, in the order of insertion.
use lapinq.Prelude.{
  ℕ, suc, ◌≤◌, String, ◌≡◌, refl, Bool, false, ◌||◌, List, [], ◌∷◌, arith, if◌then◌else◌, str_eq,
  eq_iff,
}
use lapinq.Prelude.Lists.{length, filter}

abbrev pub Clients : Type 0
Clients = List (String × List ℕ)

-- self._requests.get(ip, [])
unfoldable pub get : String → Clients → List ℕ
get ip [] = []
get ip ((k, ts) ∷ cs) = let rest = get ip cs in if str_eq k ip then ts else rest

-- self._requests[ip] = timestamps
unfoldable pub put : String → List ℕ → Clients → Clients
put ip ts [] = (ip, ts) ∷ []
put ip ts ((k, us) ∷ cs) =
    let rest = put ip ts cs in if str_eq k ip then (k, ts) ∷ cs else (k, us) ∷ rest

pub get-put :
    (ip j : String) (ts : List ℕ) (cs : Clients)
    → get j (put ip ts cs) ≡ (if str_eq ip j then ts else get j cs)
unfolding get put
get-put ip j ts [] = refl
get-put ip j ts ((k, us) ∷ cs) =
    ground (arith, get-put ip j ts cs, eq_iff k ip, eq_iff k j, eq_iff ip j)

pub length-put-le :
    (ip : String) (ts : List ℕ) (cs : Clients) → length (put ip ts cs) ≤ suc (length cs)
unfolding put
length-put-le ip ts [] = omega arith
length-put-le ip ts ((k, us) ∷ cs) = ground (arith, length-put-le ip ts cs)

-- A key of the dict.
pub has : String → Clients → Bool
has ip [] = false
has ip ((k, ts) ∷ cs) = str_eq k ip || has ip cs

-- No key occurs twice.
abbrev pub IsDict : Clients → Type 0
IsDict [] = Unit
IsDict (c ∷ cs) = (has c.0 cs ≡ false) × IsDict cs

pub get-absent : (ip : String) (cs : Clients) → has ip cs ≡ false → get ip cs ≡ []
unfolding get has
get-absent ip [] h = refl
get-absent ip ((k, ts) ∷ cs) h = ground (arith, get-absent ip cs)

has-put :
    (ip j : String) (ts : List ℕ) (cs : Clients) → has j (put ip ts cs) ≡ (str_eq ip j || has j cs)
unfolding put has
has-put ip j ts [] = refl
has-put ip j ts ((k, us) ∷ cs) =
    ground (arith, has-put ip j ts cs, eq_iff k ip, eq_iff k j, eq_iff ip j)

pub IsDict-put : (ip : String) (ts : List ℕ) (cs : Clients) → IsDict cs → IsDict (put ip ts cs)
unfolding put has
IsDict-put ip ts [] d = ground arith
IsDict-put ip ts ((k, us) ∷ cs) (h, d) =
    ground (arith, IsDict-put ip ts cs d, has-put ip k ts cs, eq_iff k ip, eq_iff ip k)

has-filter :
    (p : String × List ℕ → Bool) (j : String) (cs : Clients)
    → has j cs ≡ false
    → has j (filter p cs) ≡ false
unfolding has
has-filter p j [] h = refl
has-filter p j ((k, us) ∷ cs) h = ground (arith, has-filter p j cs)

pub IsDict-filter : (p : String × List ℕ → Bool) (cs : Clients) → IsDict cs → IsDict (filter p cs)
IsDict-filter p [] d = tt
IsDict-filter p ((k, us) ∷ cs) (h, d) = ground (arith, IsDict-filter p cs d, has-filter p k cs h)

-- Deleting the keys whose timestamps fail a test that the empty list fails.
pub get-filter :
    (q : List ℕ → Bool) (j : String) (cs : Clients)
    → IsDict cs
    → q [] ≡ false
    → get j (filter (λ c. q c.1) cs) ≡ (if q (get j cs) then get j cs else [])
unfolding get
get-filter q j [] d e = ground arith
get-filter q j ((k, us) ∷ cs) (h, d) e = ground (
  arith,
  get-filter q j cs d e,
  get-absent k cs h,
  get-absent k (filter (λ c. q c.1) cs) (has-filter (λ c. q c.1) k cs h),
  eq_iff k j,
)
