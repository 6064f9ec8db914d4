-- ===== src/Scheduler/Cron.antt =====
-- _parse_cron and _should_run of python/lapinq/scheduler.py. Texts are lists of code points, and a set
-- of numbers is the list of its members. `none` stands for the ValueError.
pub mod Values
pub mod Meaning
pub mod Field
pub mod Firing
use lapinq.Prelude.{
  ℕ, zero, suc, ◌+◌, ◌-◌, ◌*◌, ◌%◌, Bool, true, false, ◌&&◌, ◌||◌, Option, none, some, List, [],
  ◌∷◌, ◌++◌, map, leb, ◌==◌, if◌then◌else◌,
}
use lapinq.Prelude.Int.{ℤ, pos, negsuc}
use lapinq.Prelude.Lists.{any, filter, length}

infixl 5 ◌>>=◌
abbrev pub ◌>>=◌ {ℓ κ} : {A : Type ℓ} {B : Type κ} → Option A → (A → Option B) → Option B
none >>= f = none
some a >>= f = f a

abbrev pub Text : Type 0
Text = List ℕ

-- str.isspace, on a character
unfoldable pub is_space : ℕ → Bool
is_space c =
    (leb 9 c && leb c 13)
    || (leb 28 c && leb c 32)
    || c == 133
    || c == 160
    || c == 5760
    || (leb 8192 c && leb c 8202)
    || c == 8232
    || c == 8233
    || c == 8239
    || c == 8287
    || c == 12288

abbrev pub cons_head : ℕ → List Text → List Text
cons_head c [] = (c ∷ []) ∷ []
cons_head c (w ∷ ws) = (c ∷ w) ∷ ws

-- text.split(sep), for a separator of one character
unfoldable pub split : (ℕ → Bool) → Text → List Text
split sep [] = [] ∷ []
split sep (c ∷ cs) = let rest = split sep cs in if sep c then [] ∷ rest else cons_head c rest

abbrev pub is_filled : Text → Bool
is_filled [] = false
is_filled _ = true

-- cron.strip().split()
unfoldable pub words : Text → List Text
unfolding split is_space
words text = filter is_filled (split is_space text)

abbrev pub is_digit : ℕ → Bool
is_digit c = leb b'0' c && leb c b'9'

-- The digits of a numeral, with single underscores between them; `ended` says that a digit stands before.
unfoldable pub digits_from : ℕ → Bool → Text → Option ℕ
digits_from n ended [] = if ended then some n else none
digits_from n ended (c ∷ cs) =
    let after_digit = digits_from (n * 10 + (c - b'0')) true cs in
    let after_underscore = digits_from n false cs in
    if is_digit c then after_digit else if ended && c == b'_' then after_underscore else none

abbrev negate : ℕ → ℤ
negate zero = pos zero
negate (suc n) = negsuc n

-- int(text), on ASCII text without spaces
unfoldable pub parse_int : Text → Option ℤ
unfolding digits_from
parse_int [] = none
parse_int (c ∷ cs) =
    if c == b'-'
    then (digits_from 0 false cs >>= λ n. some (negate n))
    else if c == b'+'
    then (digits_from 0 false cs >>= λ n. some (pos n))
    else (digits_from 0 false (c ∷ cs) >>= λ n. some (pos n))

-- A numeral in a text that has no `-`, whose value is not negative.
abbrev pub natural : ℤ → Option ℕ
natural (pos n) = some n
natural (negsuc n) = none

unfoldable pub parse_nat : Text → Option ℕ
unfolding parse_int
parse_nat text = do n ← parse_int text; natural n

-- a, b = parts
abbrev pub two : List Text → Option (Text × Text)
two (a ∷ b ∷ []) = some (a, b)
two _ = none

-- The members of range(a, b + 1, step), for a positive step; `fuel` bounds their number.
unfoldable pub range_from : ℕ → ℕ → ℕ → ℕ → List ℕ
range_from zero a b step = []
range_from (suc fuel) a b step =
    let rest = range_from fuel (a + step) b step in if leb a b then a ∷ rest else []

-- range(a, b + 1, step); a zero step is a ValueError, and a negative one gives nothing, as a ≤ b.
unfoldable pub range_step : ℕ → ℕ → ℤ → Option (List ℕ)
unfolding range_from
range_step a b (pos zero) = none
range_step a b (pos (suc s)) = some (range_from (suc b - a) a b (suc s))
range_step a b (negsuc s) = some []

-- range(a, b + 1)
unfoldable pub range : ℕ → ℕ → List ℕ
unfolding range_from
range a b = range_from (suc b - a) a b 1

abbrev pub has : ℕ → Text → Bool
has c = any (λ d. d == c)

-- The first and last member of `base_range`; min() and max() refuse an empty range.
unfoldable pub base_range : ℕ → ℕ → Text → Option (ℕ × ℕ)
unfolding split parse_nat
base_range lo hi base =
    if has b'-' base
    then (do
      (a, b) ← two (split (λ c. c == b'-') base)
      m ← parse_nat a
      n ← parse_nat b
      if leb m n then some (m, n) else none)
    else (do m ← parse_nat base; if leb m hi then some (m, hi) else none)

-- base == "*"
abbrev pub is_star : Text → Bool
is_star (c ∷ []) = c == b'*'
is_star _ = false

unfoldable pub parse_segment : ℕ → ℕ → Text → Option (List ℕ)
unfolding split base_range parse_int parse_nat range range_step
parse_segment lo hi segment =
    if has b'/' segment
    then (do
      (base, step) ← two (split (λ c. c == b'/') segment)
      s ← parse_int step
      (m, n) ← if is_star base then some (lo, hi) else base_range lo hi base
      range_step m n s)
    else if has b'-' segment
    then (do
      (a, b) ← two (split (λ c. c == b'-') segment)
      m ← parse_nat a
      n ← parse_nat b
      some (range m n))
    else (do n ← parse_nat segment; some (n ∷ []))

unfoldable pub parse_segments : ℕ → ℕ → List Text → Option (List ℕ)
unfolding parse_segment
parse_segments lo hi [] = some []
parse_segments lo hi (t ∷ ts) = do
  values ← parse_segment lo hi t
  rest ← parse_segments lo hi ts
  some (values ++ rest)

unfoldable pub parse_field : ℕ → ℕ → Text → Option (List ℕ)
unfolding range split parse_segments
parse_field lo hi part =
    if is_star part then some (range lo hi) else parse_segments lo hi (split (λ c. c == b',') part)

-- minutes, hours, days, months, weekdays
pub record CronSets : Type 0 where
  pub minutes : List ℕ
  pub hours : List ℕ
  pub days : List ℕ
  pub months : List ℕ
  pub weekdays : List ℕ

unfoldable pub parse_cron : Text → Option CronSets
unfolding words parse_field
parse_cron cron = fields (words cron)
  where
    fields : List Text → Option CronSets
    fields (a ∷ b ∷ c ∷ d ∷ e ∷ []) = do
      minutes ← parse_field 0 59 a
      hours ← parse_field 0 23 b
      days ← parse_field 1 31 c
      months ← parse_field 1 12 d
      weekdays ← parse_field 0 6 e
      some (record {
        minutes = minutes;
        hours = hours;
        days = days;
        months = months;
        weekdays = map (λ w. (w + 6) % 7) weekdays;
      })
    fields _ = none

-- The attributes of a datetime that the check reads; Monday is weekday 0.
pub record Moment : Type 0 where
  pub minute : ℕ
  pub hour : ℕ
  pub day : ℕ
  pub month : ℕ
  pub weekday : ℕ

-- x in values
abbrev pub mem : ℕ → List ℕ → Bool
mem x = any (λ y. y == x)

unfoldable pub should_run : CronSets → Moment → Bool
should_run s m =
    mem m.minute s.minutes
    && mem m.hour s.hours
    && mem m.day s.days
    && mem m.month s.months
    && mem m.weekday s.weekdays
