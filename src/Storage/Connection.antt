-- ===== src/Storage/Connection.antt =====
-- Storage.create of python/lapinq/storage.py: attempts to connect and to set up the database, with a
-- growing pause between them.
pub mod Attempts
use lapinq.Prelude.{
  ℕ, zero, suc, ◌+◌, ◌-◌, ◌*◌, Option, none, some, List, [], ◌∷◌, ◌++◌, ltb, if◌then◌else◌,
}

-- How an attempt ends: create_pool raises, or a statement after it does, or the storage is ready.
pub data Attempt : Type 0 where
  no_pool no_set_up ready : Attempt

-- What create does: a pool is opened or closed, or it sleeps for some seconds.
pub data Event : Type 0 where
  opens closes : Event
  sleeps : (seconds : ℕ) → Event

-- if attempt < max_retries - 1, for whole numbers that may be zero
abbrev pub pause : ℕ → ℕ → List Event
pause max_retries attempt =
    if ltb (attempt + 1) max_retries then sleeps ((attempt + 1) * 2) ∷ [] else []

-- The loop from `attempt` on, with so many attempts left. The result is the number of the attempt whose
-- storage is returned, or none for the RuntimeError.
unfoldable pub create_from : ℕ → ℕ → (ℕ → Attempt) → ℕ → List Event × Option ℕ
create_from zero max_retries outcome attempt = ([], none)
create_from (suc left) max_retries outcome attempt =
    let (later, result) = create_from left max_retries outcome (suc attempt) in
    elim (outcome attempt) [
      | no_pool ↦ (pause max_retries attempt ++ later, result)
      | no_set_up ↦ (opens ∷ closes ∷ pause max_retries attempt ++ later, result)
      | ready ↦ (opens ∷ [], some attempt)
    ]

-- for attempt in range(max_retries)
unfoldable pub create : ℕ → (ℕ → Attempt) → List Event × Option ℕ
unfolding create_from
create max_retries outcome = create_from max_retries max_retries outcome 0
