-- ===== src/Scheduler/Cron/Meaning.antt =====
-- The notation of cron fields with a meaning of its own, and the parser against it.
use lapinq.Prelude.{
  ℕ, zero, suc, ◌-◌, ◌≤◌, ◌<◌, ◌≡◌, refl, Bool, true, false, ◌&&◌, some, List, [], ◌∷◌, ◌++◌, arith,
  leb, ◌==◌, if◌then◌else◌,
}
use lapinq.Prelude.Int.{pos}
use lapinq.Prelude.Lists.{All-append}
use lapinq.Scheduler.Cron.{
  Text, is_digit, range_from, range_step, range, has, base_range, is_star, parse_segment, mem,
}
use lapinq.Scheduler.Cron.Values.{
  in_steps, mem-range_from, mem-range, value, IsNumeral, parse_int-numeral, parse_nat-numeral,
  IsFree, split-IsFree, split-append, numeral-IsFree,
}

-- N, N-M, */S, N-M/S and N/S, of numerals.
pub data Item : Type 0 where
  at : Text → Item
  span : Text → Text → Item
  every : Text → Item
  span_every : Text → Text → Text → Item
  from_every : Text → Text → Item

unfoldable pub show_item : Item → Text
show_item (at n) = n
show_item (span a b) = a ++ b'-' ∷ b
show_item (every s) = b'*' ∷ b'/' ∷ s
show_item (span_every a b s) = (a ++ b'-' ∷ b) ++ b'/' ∷ s
show_item (from_every a s) = a ++ b'/' ∷ s

-- A step is positive, and a stepped range is not empty.
abbrev pub IsItem : ℕ → Item → Type 0
IsItem hi (at n) = IsNumeral n
IsItem hi (span a b) = IsNumeral a × IsNumeral b
IsItem hi (every s) = IsNumeral s × (0 < value s)
IsItem hi (span_every a b s) =
    IsNumeral a × IsNumeral b × IsNumeral s × (value a ≤ value b) × (0 < value s)
IsItem hi (from_every a s) = IsNumeral a × IsNumeral s × (value a ≤ hi) × (0 < value s)

-- Whether an item of a field from `lo` to `hi` names the number `x`.
abbrev pub names : ℕ → ℕ → Item → ℕ → Bool
names lo hi (at n) x = value n == x
names lo hi (span a b) x = leb (value a) x && leb x (value b)
names lo hi (every s) x = in_steps lo hi (value s) x
names lo hi (span_every a b s) x = in_steps (value a) (value b) (value s) x
names lo hi (from_every a s) x = in_steps (value a) hi (value s) x

pub numeral_avoids : (c : ℕ) (t : Text) → is_digit c ≡ false → IsNumeral t → IsFree (λ d. d == c) t
numeral_avoids c t h n = numeral-IsFree (λ d. d == c) t (λ d e. ground arith) n.1

has-IsFree : (c : ℕ) (t : Text) → IsFree (λ d. d == c) t → has c t ≡ false
has-IsFree c [] h = refl
has-IsFree c (d ∷ t) h = ground (arith, h.0, has-IsFree c t h.1)

has-append : (c : ℕ) (a b : Text) → has c (a ++ c ∷ b) ≡ true
has-append c [] b = ground arith
has-append c (d ∷ a) b = ground (arith, has-append c a b)

pub is_star-numeral : (t : Text) → IsNumeral t → is_star t ≡ false
is_star-numeral [] h = refl
is_star-numeral (c ∷ []) h = ground (arith, h.1.0)
is_star-numeral (c ∷ d ∷ t) h = refl

pub is_star-append : (a b : Text) (c d : ℕ) → is_star (a ++ c ∷ d ∷ b) ≡ false
is_star-append [] b c d = refl
is_star-append (e ∷ []) b c d = refl
is_star-append (e ∷ f ∷ a) b c d = refl

range_step-some :
    (m n s : ℕ)
    → 0 < s
    → (vs : List ℕ) × (range_step m n (pos s) ≡ some vs) × ((x : ℕ) → mem x vs ≡ in_steps m n s x)
unfolding range_step
range_step-some m n zero p = elim p [ ]
range_step-some m n (suc s) p = (
  range_from (suc n - m) m n (suc s),
  refl,
  λ x. mem-range_from (suc n - m) m n (suc s) x p (omega arith),
)

span-IsFree : (a b : Text) → IsNumeral a → IsNumeral b → IsFree (λ d. d == b'/') (a ++ b'-' ∷ b)
span-IsFree a b na nb =
    All-append (λ d. (d == b'/') ≡ false) a (b'-' ∷ b) (numeral_avoids b'/' a refl na)
      (refl, numeral_avoids b'/' b refl nb)

-- The parts of a stepped item.
stepped :
    (lo hi m n : ℕ) (base s : Text)
    → IsFree (λ d. d == b'/') base
    → IsNumeral s
    → 0 < value s
    → (if is_star base then some (lo, hi) else base_range lo hi base) ≡ some (m, n)
    → (vs : List ℕ) × (parse_segment lo hi (base ++ b'/' ∷ s) ≡ some vs)
      × ((x : ℕ) → mem x vs ≡ in_steps m n (value s) x)
unfolding parse_segment
stepped lo hi m n base s free num p e =
    let (vs, ok, is) = range_step-some m n (value s) p in
    (
      vs,
      rw
          (
            has-append b'/' base s,
            split-append (λ d. d == b'/') base s b'/' free refl,
            split-IsFree (λ d. d == b'/') s (numeral_avoids b'/' s refl num),
            parse_int-numeral s num,
            e,
          )
          ok,
      is,
    )

base_range-span :
    (lo hi : ℕ) (a b : Text)
    → IsNumeral a
    → IsNumeral b
    → value a ≤ value b
    → base_range lo hi (a ++ b'-' ∷ b) ≡ some (value a, value b)
unfolding base_range
base_range-span lo hi a b na nb le =
    rw
      (
        has-append b'-' a b,
        split-append (λ d. d == b'-') a b b'-' (numeral_avoids b'-' a refl na) refl,
        split-IsFree (λ d. d == b'-') b (numeral_avoids b'-' b refl nb),
        parse_nat-numeral a na,
        parse_nat-numeral b nb,
        (let e : leb (value a) (value b) ≡ true = ground arith in e),
      )
      refl

base_range-from :
    (lo hi : ℕ) (a : Text) → IsNumeral a → value a ≤ hi → base_range lo hi a ≡ some (value a, hi)
unfolding base_range
base_range-from lo hi a na le =
    rw
      (
        has-IsFree b'-' a (numeral_avoids b'-' a refl na),
        parse_nat-numeral a na,
        (let e : leb (value a) hi ≡ true = ground arith in e),
      )
      refl

pub is_star-span : (a b : Text) → IsNumeral b → is_star (a ++ b'-' ∷ b) ≡ false
is_star-span a [] nb = absurd (nb.0 refl)
is_star-span a (c ∷ b) nb = is_star-append a b b'-' c

pub parse_segment-show :
    (lo hi : ℕ) (i : Item)
    → IsItem hi i
    → (vs : List ℕ) × (parse_segment lo hi (show_item i) ≡ some vs)
      × ((x : ℕ) → mem x vs ≡ names lo hi i x)
unfolding parse_segment show_item
parse_segment-show lo hi (at n) h = (
  value n ∷ [],
  rw (
    has-IsFree b'/' n (numeral_avoids b'/' n refl h),
    has-IsFree b'-' n (numeral_avoids b'-' n refl h),
    parse_nat-numeral n h,
  ),
  λ x. ground arith,
)
parse_segment-show lo hi (span a b) (na, nb) = (
  range (value a) (value b),
  rw (
    has-IsFree b'/' (a ++ b'-' ∷ b) (span-IsFree a b na nb),
    has-append b'-' a b,
    split-append (λ d. d == b'-') a b b'-' (numeral_avoids b'-' a refl na) refl,
    split-IsFree (λ d. d == b'-') b (numeral_avoids b'-' b refl nb),
    parse_nat-numeral a na,
    parse_nat-numeral b nb,
  ),
  λ x. mem-range (value a) (value b) x,
)
parse_segment-show lo hi (every s) (n, p) = stepped lo hi lo hi (b'*' ∷ []) s (refl, tt) n p refl
parse_segment-show lo hi (span_every a b s) (na, nb, ns, le, p) =
    stepped lo hi (value a) (value b) (a ++ b'-' ∷ b) s (span-IsFree a b na nb) ns p
      (rw (is_star-span a b nb) (base_range-span lo hi a b na nb le))
parse_segment-show lo hi (from_every a s) (na, ns, le, p) =
    stepped lo hi (value a) hi a s (numeral_avoids b'/' a refl na) ns p
      (rw (is_star-numeral a na) (base_range-from lo hi a na le))
