-- ===== src/Prelude/Rows.antt =====
-- A table is a list of rows. `UPDATE ... WHERE`, and a look-up by key, generic in the row, with the
-- laws that the storage proofs share.
use Prim.Native.Nat.{ℕ}
use mathlib.Core.Path.{◌≡◌, refl, subst}
use mathlib.Core.Logic.{◌≢◌}
use mathlib.Core.Bool.{◌&&◌, Bool, true, false}
use mathlib.Core.Option
use mathlib.Core.Option.{Option, none, some, some-injective}
use mathlib.Core.List.{List, [], ◌∷◌, ◌++◌, map}
use native.Mathlib.Omega.{arith}
use lapinq.Prelude.Tests.{◌==◌, if◌then◌else◌}
use lapinq.Prelude.Lists.{All, Distinct, count, filter}

module _ {ℓ} {A : Type ℓ} where
  -- UPDATE rows SET change WHERE guard
  abbrev pub update_where : (A → Bool) → (A → A) → List A → List A
  update_where guard change [] = []
  update_where guard change (x ∷ xs) =
      (if guard x then change x else x) ∷ update_where guard change xs

  -- SELECT * FROM rows WHERE key = k
  abbrev pub find : (A → ℕ) → ℕ → List A → Option A
  find key k [] = none
  find key k (x ∷ xs) = let rest = find key k xs in if key x == k then some x else rest

  pub map-update_where {κ} :
      {B : Type κ} (f : A → B) (guard : A → Bool) (change : A → A) (xs : List A)
      → ((x : A) → f (change x) ≡ f x)
      → map f (update_where guard change xs) ≡ map f xs
  map-update_where f guard change [] same = refl
  map-update_where f guard change (x ∷ xs) same =
      ground (arith, same x, map-update_where f guard change xs same)

  pub find-update_where :
      (key : A → ℕ) (k : ℕ) (guard : A → Bool) (change : A → A) (xs : List A)
      → ((x : A) → key (change x) ≡ key x)
      → find key k (update_where guard change xs)
        ≡ Option.map (λ x. if guard x then change x else x) (find key k xs)
  find-update_where key k guard change [] same = refl
  find-update_where key k guard change (x ∷ xs) same =
      ground (arith, same x, find-update_where key k guard change xs same)

  pub find-key : (key : A → ℕ) (k : ℕ) (xs : List A) (r : A) → find key k xs ≡ some r → key r ≡ k
  find-key key k [] r h = ground arith
  find-key key k (x ∷ xs) r h = ground (arith, find-key key k xs r)

  pub All-update_where {κ} :
      (P : A → Type κ) (guard : A → Bool) (change : A → A) (xs : List A)
      → ((x : A) → guard x ≡ true → P x → P (change x))
      → All P xs
      → All P (update_where guard change xs)
  All-update_where P guard change [] keep h = tt
  All-update_where P guard change (x ∷ xs) keep (p, h) =
      (one (guard x) refl, All-update_where P guard change xs keep h)
    where
      one : (b : Bool) → guard x ≡ b → P (if b then change x else x)
      one true e = keep x e p
      one false e = p

  pub All-find {κ} :
      (P : A → Type κ) (key : A → ℕ) (k : ℕ) (xs : List A) (r : A)
      → All P xs
      → find key k xs ≡ some r
      → P r
  All-find P key k [] r h e = ground arith
  All-find P key k (x ∷ xs) r h e = ground (arith, All-find P key k xs r h.1)

  -- An update that meets no row changes nothing.
  pub update_where_none :
      (guard : A → Bool) (change : A → A) (xs : List A)
      → count guard xs ≡ 0
      → update_where guard change xs ≡ xs
  update_where_none guard change [] h = refl
  update_where_none guard change (x ∷ xs) h = ground (arith, update_where_none guard change xs)

  -- After an update whose change leaves the guard, no row meets the guard.
  pub count-update_where :
      (guard : A → Bool) (change : A → A) (xs : List A)
      → ((x : A) → guard x ≡ true → guard (change x) ≡ false)
      → count guard (update_where guard change xs) ≡ 0
  count-update_where guard change [] leaves = refl
  count-update_where guard change (x ∷ xs) leaves =
      ground (arith, leaves x, count-update_where guard change xs leaves)

  pub All-key-filter :
      (key : A → ℕ) (k : ℕ) (p : A → Bool) (xs : List A)
      → All (λ j. j ≢ k) (map key xs)
      → All (λ j. j ≢ k) (map key (filter p xs))
  All-key-filter key k p [] h = tt
  All-key-filter key k p (x ∷ xs) h = ground (arith, All-key-filter key k p xs h.1)

  pub Distinct-filter :
      (key : A → ℕ) (p : A → Bool) (xs : List A)
      → Distinct (map key xs)
      → Distinct (map key (filter p xs))
  Distinct-filter key p [] h = tt
  Distinct-filter key p (x ∷ xs) h =
      ground (arith, Distinct-filter key p xs h.1, All-key-filter key (key x) p xs h.0)

  -- A key that no row has may be added at the end.
  pub Distinct-snoc :
      (key : A → ℕ) (x : A) (xs : List A)
      → Distinct (map key xs)
      → find key (key x) xs ≡ none
      → Distinct (map key (xs ++ x ∷ []))
  Distinct-snoc key x [] h e = ground arith
  Distinct-snoc key x (y ∷ xs) h e =
      ground (arith, Distinct-snoc key x xs h.1, All-key-snoc (key y) xs h.0)
    where
      All-key-snoc :
          (k : ℕ) (ys : List A)
          → All (λ j. j ≢ k) (map key ys)
          → key x ≢ k
          → All (λ j. j ≢ k) (map key (ys ++ x ∷ []))
      All-key-snoc k [] h n = (n, tt)
      All-key-snoc k (y ∷ ys) h n = (h.0, All-key-snoc k ys h.1 n)

  pub find_absent :
      (key : A → ℕ) (k : ℕ) (xs : List A) → All (λ j. j ≢ k) (map key xs) → find key k xs ≡ none
  find_absent key k [] h = refl
  find_absent key k (x ∷ xs) h = ground (arith, h.0, find_absent key k xs h.1)

  -- A deletion keeps or removes the one row with a key.
  pub find-filter :
      (key : A → ℕ) (k : ℕ) (p : A → Bool) (xs : List A) (r : A)
      → Distinct (map key xs)
      → find key k xs ≡ some r
      → find key k (filter p xs) ≡ (if p r then some r else none)
  find-filter key k p [] r d h = ground arith
  find-filter key k p (x ∷ xs) r d h = ground (
    arith,
    find-filter key k p xs r d.1,
    find_absent key k (filter p xs),
    All-key-filter key k p xs,
    d.0,
  )

  pub find-append :
      (key : A → ℕ) (k : ℕ) (xs ys : List A) (r : A)
      → find key k xs ≡ some r
      → find key k (xs ++ ys) ≡ some r
  find-append key k [] ys r h = ground arith
  find-append key k (x ∷ xs) ys r h = ground (arith, find-append key k xs ys r)

  -- A test at one key meets the row that a look-up finds, or none.
  pub count_absent :
      (key : A → ℕ) (k : ℕ) (q : A → Bool) (xs : List A)
      → find key k xs ≡ none
      → count (λ x. key x == k && q x) xs ≡ 0
  count_absent key k q [] h = refl
  count_absent key k q (x ∷ xs) h = ground (arith, count_absent key k q xs)

  find-none :
      (key : A → ℕ) (k : ℕ) (x : A) (xs : List A)
      → All (λ j. j ≢ key x) (map key xs)
      → key x ≡ k
      → find key k xs ≡ none
  find-none key k x xs h e = subst (λ j. find key j xs ≡ none) e (find_absent key (key x) xs h)

  pub count-found :
      (key : A → ℕ) (k : ℕ) (q : A → Bool) (xs : List A) (r : A)
      → Distinct (map key xs)
      → find key k xs ≡ some r
      → count (λ x. key x == k && q x) xs ≡ (if q r then 1 else 0)
  count-found key k q [] r d h = ground arith
  count-found key k q (x ∷ xs) r d h =
      ground
        (arith, count-found key k q xs r d.1, count_absent key k q xs, find-none key k x xs d.0)
