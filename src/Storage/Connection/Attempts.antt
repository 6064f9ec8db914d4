-- ===== src/Storage/Connection/Attempts.antt =====
-- How often Storage.create tries, what it leaves open, and how long it waits.
use lapinq.Prelude.{
  ℕ, zero, suc, ◌+◌, ◌-◌, ◌*◌, ◌<◌, ◌≡◌, refl, Option, none, some, List, [], ◌∷◌, ◌++◌, arith, inl,
  inr, ◌⊎◌,
}
use lapinq.Storage.Connection.{
  Attempt, no_pool, no_set_up, ready, Event, opens, closes, sleeps, pause, create_from, create,
}

-- The first attempt among `left` from `attempt` on that is ready.
abbrev pub first_ready : ℕ → (ℕ → Attempt) → ℕ → Option ℕ
first_ready zero outcome attempt = none
first_ready (suc left) outcome attempt =
    let later = first_ready left outcome (suc attempt) in
    elim (outcome attempt) [ ready ↦ some attempt | other ↦ later ]

abbrev pub opened : List Event → ℕ
opened [] = 0
opened (opens ∷ es) = suc (opened es)
opened (_ ∷ es) = opened es

abbrev pub closed : List Event → ℕ
closed [] = 0
closed (closes ∷ es) = suc (closed es)
closed (_ ∷ es) = closed es

abbrev pub slept : List Event → ℕ
slept [] = 0
slept (sleeps s ∷ es) = s + slept es
slept (_ ∷ es) = slept es

-- The pool of the storage that is returned, and the attempts that failed before it.
abbrev pub kept : Option ℕ → ℕ
kept none = 0
kept (some k) = 1

abbrev pub failures : ℕ → Option ℕ → ℕ
failures max_retries none = max_retries - 1
failures max_retries (some k) = k

module _ (max_retries : ℕ) (outcome : ℕ → Attempt) where
  result-create_from :
      (left attempt : ℕ)
      → (create_from left max_retries outcome attempt).1 ≡ first_ready left outcome attempt
  unfolding create_from
  result-create_from zero attempt = refl
  result-create_from (suc left) attempt = ground (arith, result-create_from left (suc attempt))

  pools-create_from :
      (left attempt : ℕ)
      → opened (create_from left max_retries outcome attempt).0
        ≡ closed (create_from left max_retries outcome attempt).0
          + kept (first_ready left outcome attempt)
  unfolding create_from
  pools-create_from zero attempt = refl
  pools-create_from (suc left) attempt = ground (arith, pools-create_from left (suc attempt))

  abbrev slept_from : ℕ → ℕ → ℕ
  slept_from left attempt = slept (create_from left max_retries outcome attempt).0

  abbrev ready_from : ℕ → ℕ → Option ℕ
  ready_from left attempt = first_ready left outcome attempt

  abbrev total : Option ℕ → ℕ
  total r = failures max_retries r * (failures max_retries r + 1)

  slept-pause :
      (attempt : ℕ) (es : List Event)
      → slept (pause max_retries attempt ++ es) ≡ slept (pause max_retries attempt) + slept es
  slept-pause attempt es = ground arith

  -- An attempt is ready, or the next one follows after a pause.
  tried :
      (left attempt : ℕ)
      → ((ready_from (suc left) attempt ≡ some attempt) × (slept_from (suc left) attempt ≡ 0))
        ⊎ ((ready_from (suc left) attempt ≡ ready_from left (suc attempt))
            × (slept_from (suc left) attempt
                ≡ slept (pause max_retries attempt) + slept_from left (suc attempt)))
  unfolding create_from
  tried left attempt = by_outcome (outcome attempt) refl
    where
      by_outcome :
          (a : Attempt)
          → outcome attempt ≡ a
          → ((ready_from (suc left) attempt ≡ some attempt) × (slept_from (suc left) attempt ≡ 0))
            ⊎ ((ready_from (suc left) attempt ≡ ready_from left (suc attempt))
                × (slept_from (suc left) attempt
                    ≡ slept (pause max_retries attempt) + slept_from left (suc attempt)))
      by_outcome ready e = inl (ground (arith, e), ground (arith, e))
      by_outcome no_pool e = inr (
        ground (arith, e),
        ground
            (arith, e, slept-pause attempt (create_from left max_retries outcome (suc attempt)).0),
      )
      by_outcome no_set_up e = inr (
        ground (arith, e),
        ground
            (arith, e, slept-pause attempt (create_from left max_retries outcome (suc attempt)).0),
      )

  square : (a : ℕ) → a * (a + 1) + (a + 1) * 2 ≡ suc a * (suc a + 1)
  square a = grind arith

  -- The pauses before `attempt`, if the attempts before it failed, add up to attempt * (attempt + 1).
  slept-create_from :
      (left attempt : ℕ)
      → attempt + suc left ≡ max_retries
      → attempt * (attempt + 1) + slept_from (suc left) attempt
        ≡ total (ready_from (suc left) attempt)
  unfolding create_from
  slept-create_from zero attempt e = elim (tried zero attempt) [
    | inl (r, t) ↦ rw (r, t) (omega arith)
    | inr (r, t) ↦
        let last : max_retries - 1 ≡ attempt = omega (arith, e) in
        let still : slept (pause max_retries attempt) ≡ 0 = ground (arith, e) in
        rw (r, t, still, last) (omega arith)
  ]
  slept-create_from (suc left) attempt e = elim (tried (suc left) attempt) [
    | inl (r, t) ↦ rw (r, t) (omega arith)
    | inr (r, t) ↦
        let short : slept (pause max_retries attempt) ≡ (attempt + 1) * 2 = ground (arith, e) in
        let later = slept-create_from left (suc attempt) (omega (arith, e)) in
        rw (r, t, short) (omega (arith, later, square attempt))
  ]

-- If `max_retries` is not zero, Storage.create ends: with the storage of the first attempt that is
-- ready among `max_retries`, or with the error if there is none; every pool that was opened is
-- closed but the one that is returned; and after `f` failures that were followed by a pause it has
-- slept f * (f + 1) seconds in all.
pub create-ends :
    (max_retries : ℕ) (outcome : ℕ → Attempt)
    → 0 < max_retries
    → ((create max_retries outcome).1 ≡ first_ready max_retries outcome 0)
      × (opened (create max_retries outcome).0
          ≡ closed (create max_retries outcome).0 + kept (first_ready max_retries outcome 0))
      × (slept (create max_retries outcome).0
          ≡ failures max_retries (first_ready max_retries outcome 0)
            * (failures max_retries (first_ready max_retries outcome 0) + 1))
unfolding create
create-ends zero outcome h = absurd (omega arith)
create-ends (suc left) outcome h = (
  result-create_from (suc left) outcome (suc left) 0,
  pools-create_from (suc left) outcome (suc left) 0,
  omega (arith, slept-create_from (suc left) outcome left 0 (omega arith)),
)
