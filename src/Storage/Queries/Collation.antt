-- ===== src/Storage/Queries/Collation.antt =====
-- The order of texts by their code points (PostgreSQL's "C" collation), an instance of `IsOrder`.
use Prim.Native.Char.{Char, code}
use text.Mathlib.TextEquality.{codes_equal}
use lapinq.Prelude.{
  String, ◌≡◌, refl, ◌⊎◌, inl, inr, Bool, true, false, arith, ltb, ◌==◌, if◌then◌else◌,
}
use lapinq.Storage.Queries.Counts.{IsOrder}

code_injective : (c d : Char) → code c ≡ code d → c ≡ d
code_injective c d h = codes_equal c d (ground arith)

pub by_code : String → String → Bool
by_code String.[] t = true
by_code (String.◌∷◌ c s) String.[] = false
by_code (String.◌∷◌ c s) (String.◌∷◌ d t) =
    let rest = by_code s t in if code c == code d then rest else ltb (code c) (code d)

total : (s t : String) → (by_code s t ≡ true) ⊎ (by_code t s ≡ true)
unfolding by_code
total String.[] t = inl refl
total (String.◌∷◌ c s) String.[] = inr refl
total (String.◌∷◌ c s) (String.◌∷◌ d t) = ground (arith, total s t)

antisym : (s t : String) → by_code s t ≡ true → by_code t s ≡ true → s ≡ t
unfolding by_code
antisym String.[] String.[] h k = refl
antisym String.[] (String.◌∷◌ d t) h k = ground arith
antisym (String.◌∷◌ c s) String.[] h k = ground arith
antisym (String.◌∷◌ c s) (String.◌∷◌ d t) h k =
    let same : c ≡ d = code_injective c d (ground arith) in
    cc (same, antisym s t (ground arith) (ground arith))

trans : (s t u : String) → by_code s t ≡ true → by_code t u ≡ true → by_code s u ≡ true
unfolding by_code
trans String.[] t u h k = refl
trans (String.◌∷◌ c s) String.[] u h k = ground arith
trans (String.◌∷◌ c s) (String.◌∷◌ d t) String.[] h k = ground arith
trans (String.◌∷◌ c s) (String.◌∷◌ d t) (String.◌∷◌ e u) h k = ground (arith, trans s t u)

pub by_code-IsOrder : IsOrder by_code
by_code-IsOrder = record { total = total; antisym = antisym; trans = trans }
