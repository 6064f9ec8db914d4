-- ===== src/Scheduler/Cron/Values.antt =====
-- What the parts of the cron parser compute: ranges, numerals, splits.
use native.Mathlib.Nat.{mod-eq_of_lt, mod-eq-sub-mod}
use lapinq.Prelude.{
  ℕ, zero, suc, ◌+◌, ◌-◌, ◌*◌, ◌%◌, ◌≤◌, ◌<◌, ◌≡◌, refl, ap, ◌∙◌, ◌≢◌, Bool, true, false, ◌&&◌,
  ◌||◌, some, List, [], ◌∷◌, ◌++◌, arith, leb, ◌==◌,
}
use lapinq.Prelude.Int.{pos}
use lapinq.Prelude.Lists.{All}
use lapinq.Scheduler.Cron.{
  Text, split, is_digit, digits_from, parse_int, parse_nat, range_from, range, mem,
}

-- x is one of a, a + step, ..., up to b.
abbrev pub in_steps : ℕ → ℕ → ℕ → ℕ → Bool
in_steps a b step x = leb a x && (leb x b && (x - a) % step == 0)

next_step : (a step x : ℕ) → 0 < step → a + step ≤ x → (x - a) % step ≡ (x - (a + step)) % step
next_step a step x p h =
    mod-eq-sub-mod {n = x - a} {m = step} (omega arith)
    ∙ ap (λ y. y % step) (let e : x - a - step ≡ x - (a + step) = omega arith in e)

before_step : (a step x : ℕ) → a ≤ x → x < a + step → (x - a) % step ≡ x - a
before_step a step x h k = mod-eq_of_lt (omega arith)

pub mem-append : (x : ℕ) (xs ys : List ℕ) → mem x (xs ++ ys) ≡ (mem x xs || mem x ys)
mem-append x [] ys = refl
mem-append x (y ∷ xs) ys = ground (arith, mem-append x xs ys)

pub mem-range_from :
    (fuel a b step x : ℕ)
    → 0 < step
    → suc b - a ≤ fuel
    → mem x (range_from fuel a b step) ≡ in_steps a b step x
unfolding range_from
mem-range_from zero a b step x p h = ground arith
mem-range_from (suc fuel) a b step x p h =
    ground
      (arith, mem-range_from fuel (a + step) b step x p, next_step a step x p, before_step a step x)

pub mem-range : (a b x : ℕ) → mem x (range a b) ≡ (leb a x && leb x b)
unfolding range
mem-range a b x = ground (arith, mem-range_from (suc b - a) a b 1 x)

-- The value of a numeral, and what a numeral is: digits, at least one.
abbrev pub value_from : ℕ → Text → ℕ
value_from n [] = n
value_from n (c ∷ cs) = value_from (n * 10 + (c - b'0')) cs

abbrev pub value : Text → ℕ
value = value_from 0

abbrev pub IsNumeral : Text → Type 0
IsNumeral t = (t ≢ []) × All (λ c. is_digit c ≡ true) t

digits_from-value :
    (n : ℕ) (t : Text)
    → All (λ c. is_digit c ≡ true) t
    → digits_from n true t ≡ some (value_from n t)
unfolding digits_from
digits_from-value n [] h = refl
digits_from-value n (c ∷ t) h = ground (arith, h.0, digits_from-value (n * 10 + (c - b'0')) t h.1)

pub parse_int-numeral : (t : Text) → IsNumeral t → parse_int t ≡ some (pos (value t))
unfolding parse_int
parse_int-numeral [] h = absurd (h.0 refl)
parse_int-numeral (c ∷ t) (_, (d, h)) =
    ground (arith, d, digits_from-value (0 * 10 + (c - b'0')) t h)

pub parse_nat-numeral : (t : Text) → IsNumeral t → parse_nat t ≡ some (value t)
unfolding parse_nat
parse_nat-numeral t h = rw (parse_int-numeral t h)

-- A separator that a text does not have.
abbrev pub IsFree : (ℕ → Bool) → Text → Type 0
IsFree sep = All (λ c. sep c ≡ false)

pub split-IsFree : (sep : ℕ → Bool) (t : Text) → IsFree sep t → split sep t ≡ t ∷ []
unfolding split
split-IsFree sep [] h = refl
split-IsFree sep (c ∷ t) h = ground (arith, h.0, split-IsFree sep t h.1)

pub split-append :
    (sep : ℕ → Bool) (a b : Text) (c : ℕ)
    → IsFree sep a
    → sep c ≡ true
    → split sep (a ++ c ∷ b) ≡ a ∷ split sep b
unfolding split
split-append sep [] b c h e = ground arith
split-append sep (d ∷ a) b c h e = ground (arith, h.0, split-append sep a b c h.1 e)

-- Digits are no separators.
pub numeral-IsFree :
    (sep : ℕ → Bool) (t : Text)
    → ((c : ℕ) → is_digit c ≡ true → sep c ≡ false)
    → All (λ c. is_digit c ≡ true) t
    → IsFree sep t
numeral-IsFree sep [] f h = tt
numeral-IsFree sep (c ∷ t) f h = (f c h.0, numeral-IsFree sep t f h.1)
