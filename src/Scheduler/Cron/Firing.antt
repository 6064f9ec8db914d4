-- ===== src/Scheduler/Cron/Firing.antt =====
-- A whole cron expression, from its text to the minutes in which _should_run holds.
use native.Mathlib.Nat.{mod-eq_of_lt, mod-eq-sub-mod}
use lapinq.Prelude.{
  ℕ, ◌+◌, ◌-◌, ◌%◌, ◌≤◌, ◌<◌, ◌≡◌, refl, sym, true, false, ◌&&◌, some, List, [], ◌∷◌, ◌++◌, map,
  arith, ◌==◌,
}
use lapinq.Prelude.Lists.{All, All-append}
use lapinq.Scheduler.Cron.{
  Text, is_space, is_filled, words, CronSets, parse_cron, Moment, mem, should_run,
}
use lapinq.Scheduler.Cron.Values.{IsNumeral, IsFree, split-IsFree, split-append, numeral-IsFree}
use lapinq.Scheduler.Cron.Meaning.{Item, at, span, every, span_every, from_every, show_item, IsItem}
use lapinq.Scheduler.Cron.Field.{
  Field, all, items, show_items, show_field, IsField, denotes, parse_field-show,
}

abbrev IsWord : Text → Type 0
IsWord t = IsFree is_space t × (is_filled t ≡ true)

numeral-IsWord : (t : Text) → IsNumeral t → IsFree is_space t
unfolding is_space
numeral-IsWord t h = numeral-IsFree is_space t (λ c e. ground arith) h.1

is_filled-append : (a b : Text) (c : ℕ) → is_filled (a ++ c ∷ b) ≡ true
is_filled-append [] b c = refl
is_filled-append (d ∷ a) b c = refl

is_filled-numeral : (t : Text) → IsNumeral t → is_filled t ≡ true
is_filled-numeral [] h = absurd (h.0 refl)
is_filled-numeral (c ∷ t) h = refl

join :
    (a b : Text) (c : ℕ)
    → IsFree is_space a
    → is_space c ≡ false
    → IsFree is_space b
    → IsWord (a ++ c ∷ b)
join a b c ha e hb =
    (All-append (λ d. is_space d ≡ false) a (c ∷ b) ha (e, hb), is_filled-append a b c)

item-IsWord : (hi : ℕ) (i : Item) → IsItem hi i → IsWord (show_item i)
unfolding show_item is_space
item-IsWord hi (at n) h = (numeral-IsWord n h, is_filled-numeral n h)
item-IsWord hi (span a b) (na, nb) = join a b b'-' (numeral-IsWord a na) refl (numeral-IsWord b nb)
item-IsWord hi (every s) (n, p) = ((refl, (refl, numeral-IsWord s n)), refl)
item-IsWord hi (span_every a b s) (na, nb, ns, le, p) =
    join (a ++ b'-' ∷ b) s b'/' ((join a b b'-' (numeral-IsWord a na) refl (numeral-IsWord b nb)).0)
      refl (numeral-IsWord s ns)
item-IsWord hi (from_every a s) (na, ns, le, p) =
    join a s b'/' (numeral-IsWord a na) refl (numeral-IsWord s ns)

items-IsWord :
    (hi : ℕ) (i : Item) (r : List Item) → IsItem hi i → All (IsItem hi) r → IsWord (show_items i r)
unfolding is_space
items-IsWord hi i [] h hs = item-IsWord hi i h
items-IsWord hi i (j ∷ r) h hs =
    join (show_item i) (show_items j r) b',' ((item-IsWord hi i h).0) refl
      ((items-IsWord hi j r hs.0 hs.1).0)

field-IsWord : (hi : ℕ) (f : Field) → IsField hi f → IsWord (show_field f)
unfolding show_field is_space
field-IsWord hi all h = ((refl, tt), refl)
field-IsWord hi (items i r) (h, hs) = items-IsWord hi i r h hs

words-word : (t : Text) → IsWord t → words t ≡ t ∷ []
unfolding words
words-word t (h, e) = rw (split-IsFree is_space t h) (ground arith)

words-space : (t u : Text) → IsWord t → words (t ++ b' ' ∷ u) ≡ t ∷ words u
unfolding words is_space
words-space t u (h, e) = rw (split-append is_space t u b' ' h refl) (ground arith)

-- Five fields with spaces between them.
abbrev pub show_cron : Field → Field → Field → Field → Field → Text
show_cron a b c d e =
    show_field a
    ++ b' '
      ∷ (show_field b ++ b' ' ∷ (show_field c ++ b' ' ∷ (show_field d ++ b' ' ∷ show_field e)))

-- Sunday is 0 in a cron field, and Monday is 0 in a datetime.
monday_first : (v w : ℕ) → v ≤ 6 → w < 7 → ((v + 6) % 7 == w) ≡ (v == (w + 1) % 7)
monday_first v w h k = ground (
  arith,
  mod-eq-sub-mod {n = v + 6} {m = 7},
  mod-eq_of_lt {n = v + 6} {m = 7},
  mod-eq_of_lt {n = v + 6 - 7} {m = 7},
  mod-eq-sub-mod {n = w + 1} {m = 7},
  mod-eq_of_lt {n = w + 1} {m = 7},
  mod-eq_of_lt {n = w + 1 - 7} {m = 7},
)

mem-weekdays :
    (vs : List ℕ) (w : ℕ)
    → ((x : ℕ) → mem x vs ≡ true → x ≤ 6)
    → w < 7
    → mem w (map (λ v. (v + 6) % 7) vs) ≡ mem ((w + 1) % 7) vs
mem-weekdays [] w h k = refl
mem-weekdays (v ∷ vs) w h k = ground (
  arith,
  monday_first v w (h v (ground arith)) k,
  mem-weekdays vs w (λ x e. h x (ground arith)) k,
)

words-cron :
    (a b c d e : Field)
    → IsField 59 a
    → IsField 23 b
    → IsField 31 c
    → IsField 12 d
    → IsField 6 e
    → words (show_cron a b c d e)
      ≡ show_field a ∷ show_field b ∷ show_field c ∷ show_field d ∷ show_field e ∷ []
words-cron a b c d e ha hb hc hd he =
    rw
      (
        words-space (show_field a)
            (show_field b ++ b' ' ∷ (show_field c ++ b' ' ∷ (show_field d ++ b' ' ∷ show_field e)))
            (field-IsWord 59 a ha),
        words-space (show_field b) (show_field c ++ b' ' ∷ (show_field d ++ b' ' ∷ show_field e))
            (field-IsWord 23 b hb),
        words-space (show_field c) (show_field d ++ b' ' ∷ show_field e) (field-IsWord 31 c hc),
        words-space (show_field d) (show_field e) (field-IsWord 12 d hd),
        words-word (show_field e) (field-IsWord 6 e he),
      )
      refl

-- A cron expression fires when it says: of five fields (`*`, or items N, N-M, */S, N-M/S, N/S
-- joined by commas, with numerals of digits, positive steps, and stepped ranges that are not
-- empty; weekdays at most 6), joined by spaces, the parse succeeds, and _should_run holds at a
-- moment exactly when each field denotes its part of the moment, the weekday counted from Sunday.
pub should_run-show_cron :
    (a b c d e : Field) (t : Moment)
    → IsField 59 a
    → IsField 23 b
    → IsField 31 c
    → IsField 12 d
    → IsField 6 e
    → ((x : ℕ) → denotes 0 6 e x ≡ true → x ≤ 6)
    → t.weekday < 7
    → (s : CronSets) × (parse_cron (show_cron a b c d e) ≡ some s)
      × (should_run s t ≡ (
          denotes 0 59 a t.minute
          && denotes 0 23 b t.hour
          && denotes 1 31 c t.day
          && denotes 1 12 d t.month
          && denotes 0 6 e ((t.weekday + 1) % 7)))
unfolding parse_cron should_run
should_run-show_cron a b c d e t ha hb hc hd he small k =
    let (minutes, ok_a, is_a) = parse_field-show 0 59 a ha in
    let (hours, ok_b, is_b) = parse_field-show 0 23 b hb in
    let (days, ok_c, is_c) = parse_field-show 1 31 c hc in
    let (months, ok_d, is_d) = parse_field-show 1 12 d hd in
    let (weekdays, ok_e, is_e) = parse_field-show 0 6 e he in
    (
      record {
        minutes = minutes;
        hours = hours;
        days = days;
        months = months;
        weekdays = map (λ w. (w + 6) % 7) weekdays;
      },
      rw (words-cron a b c d e ha hb hc hd he, ok_a, ok_b, ok_c, ok_d, ok_e) refl,
      rw
          (
            is_a t.minute,
            is_b t.hour,
            is_c t.day,
            is_d t.month,
            mem-weekdays weekdays t.weekday (λ x h. small x (rw (sym (is_e x)) h)) k,
            is_e ((t.weekday + 1) % 7),
          )
          refl,
    )
