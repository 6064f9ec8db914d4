-- ===== src/Scheduler/Cron/Field.antt =====
-- Whole cron fields and cron expressions, written from their parts, and _parse_cron on them.
use lapinq.Prelude.{ℕ, ◌≡◌, refl, Bool, false, ◌&&◌, ◌||◌, some, List, [], ◌∷◌, ◌++◌, leb, ◌==◌}
use lapinq.Prelude.Lists.{All, All-append, any}
use lapinq.Scheduler.Cron.{Text, split, range, is_star, parse_segments, parse_field, mem}
use lapinq.Scheduler.Cron.Values.{mem-range, mem-append, IsFree, split-IsFree, split-append}
use lapinq.Scheduler.Cron.Meaning.{
  Item, at, span, every, span_every, from_every, show_item, IsItem, names, numeral_avoids,
  is_star-numeral, is_star-append, is_star-span, parse_segment-show,
}

-- `*`, or items with commas between them.
pub data Field : Type 0 where
  all : Field
  items : Item → List Item → Field

abbrev pub show_items : Item → List Item → Text
show_items i [] = show_item i
show_items i (j ∷ r) = show_item i ++ b',' ∷ show_items j r

unfoldable pub show_field : Field → Text
unfolding show_item
show_field all = b'*' ∷ []
show_field (items i r) = show_items i r

abbrev pub IsField : ℕ → Field → Type 0
IsField hi all = Unit
IsField hi (items i r) = IsItem hi i × All (IsItem hi) r

-- Whether a field names the number `x`.
abbrev pub denotes : ℕ → ℕ → Field → ℕ → Bool
denotes lo hi all x = leb lo x && leb x hi
denotes lo hi (items i r) x = names lo hi i x || any (λ j. names lo hi j x) r

show_item-IsFree : (hi : ℕ) (i : Item) → IsItem hi i → IsFree (λ d. d == b',') (show_item i)
unfolding show_item
show_item-IsFree hi (at n) h = numeral_avoids b',' n refl h
show_item-IsFree hi (span a b) (na, nb) =
    All-append (λ d. (d == b',') ≡ false) a (b'-' ∷ b) (numeral_avoids b',' a refl na)
      (refl, numeral_avoids b',' b refl nb)
show_item-IsFree hi (every s) (n, p) = (refl, (refl, numeral_avoids b',' s refl n))
show_item-IsFree hi (span_every a b s) (na, nb, ns, le, p) =
    All-append (λ d. (d == b',') ≡ false) (a ++ b'-' ∷ b) (b'/' ∷ s)
      (All-append (λ d. (d == b',') ≡ false) a (b'-' ∷ b) (numeral_avoids b',' a refl na)
        (refl, numeral_avoids b',' b refl nb))
      (refl, numeral_avoids b',' s refl ns)
show_item-IsFree hi (from_every a s) (na, ns, le, p) =
    All-append (λ d. (d == b',') ≡ false) a (b'/' ∷ s) (numeral_avoids b',' a refl na)
      (refl, numeral_avoids b',' s refl ns)

is_star-item : (hi : ℕ) (i : Item) → IsItem hi i → is_star (show_item i) ≡ false
unfolding show_item
is_star-item hi (at n) h = is_star-numeral n h
is_star-item hi (span a b) (na, nb) = is_star-span a b nb
is_star-item hi (every []) (n, p) = absurd (n.0 refl)
is_star-item hi (every (c ∷ s)) h = refl
is_star-item hi (span_every a b []) (na, nb, ns, le, p) = absurd (ns.0 refl)
is_star-item hi (span_every a b (c ∷ s)) h = is_star-append (a ++ b'-' ∷ b) s b'/' c
is_star-item hi (from_every a []) (na, ns, le, p) = absurd (ns.0 refl)
is_star-item hi (from_every a (c ∷ s)) h = is_star-append a s b'/' c

is_star-comma : (a b : Text) → is_star (a ++ b',' ∷ b) ≡ false
is_star-comma [] [] = refl
is_star-comma [] (c ∷ b) = refl
is_star-comma (d ∷ []) b = refl
is_star-comma (d ∷ e ∷ a) b = refl

is_star-items : (hi : ℕ) (i : Item) (r : List Item) → IsItem hi i → is_star (show_items i r) ≡ false
is_star-items hi i [] h = is_star-item hi i h
is_star-items hi i (j ∷ r) h = is_star-comma (show_item i) (show_items j r)

-- The segments of a list of items, one after the other.
parse_segments-show :
    (lo hi : ℕ) (i : Item) (r : List Item)
    → IsItem hi i
    → All (IsItem hi) r
    → (vs : List ℕ) × (parse_segments lo hi (split (λ c. c == b',') (show_items i r)) ≡ some vs)
      × ((x : ℕ) → mem x vs ≡ (names lo hi i x || any (λ j. names lo hi j x) r))
unfolding parse_segments
parse_segments-show lo hi i [] h hs =
    let (vs, ok, is) = parse_segment-show lo hi i h in
    (
      vs ++ [],
      rw (split-IsFree (λ c. c == b',') (show_item i) (show_item-IsFree hi i h), ok) refl,
      λ x. rw (mem-append x vs [], is x) refl,
    )
parse_segments-show lo hi i (j ∷ r) h hs =
    let (vs, ok, is) = parse_segment-show lo hi i h in
    let (ws, ok', is') = parse_segments-show lo hi j r hs.0 hs.1 in
    (
      vs ++ ws,
      rw
          (
            split-append (λ c. c == b',') (show_item i) (show_items j r) b','
                (show_item-IsFree hi i h) refl,
            ok,
            ok',
          )
          refl,
      λ x. rw (mem-append x vs ws, is x, is' x) refl,
    )

-- _parse_cron reads a field as it is meant: of a field `*`, or of items N, N-M, */S, N-M/S and N/S
-- joined by commas whose numbers are digits, whose steps are positive and whose stepped ranges are not
-- empty, the parsed set has exactly the numbers the field denotes.
pub parse_field-show :
    (lo hi : ℕ) (f : Field)
    → IsField hi f
    → (vs : List ℕ) × (parse_field lo hi (show_field f) ≡ some vs)
      × ((x : ℕ) → mem x vs ≡ denotes lo hi f x)
unfolding parse_field show_field
parse_field-show lo hi all h = (range lo hi, refl, mem-range lo hi)
parse_field-show lo hi (items i r) (h, hs) =
    let (vs, ok, is) = parse_segments-show lo hi i r h hs in
    (vs, rw (is_star-items hi i r h) ok, is)
