-- ===== src/Worker/Execute/Repeats.antt =====
-- How often execute_task_inline calls the user's function.
use lapinq.Prelude.{ℕ, ◌≡◌, refl, String, true, false, Option, none, some}
use lapinq.Prelude.Int.{ℤ}
use lapinq.Worker.Execute.{
  Called, gives, type_error, retry_error, other_error, found, with_rust, execute_task_inline,
}

-- If the first call of a function that is no coroutine function ends in an exception other than
-- RetryError, or in a value that is no JSON, then with the executor in Rust the function is called
-- a second time and the second call decides, and without it the first call is the only one.
pub execute_task_inline-runs_twice {ℓ} :
    {A : Type ℓ} (through_json : A → Option A) (calls : ℕ → Called A)
    → ((v : A) → calls 0 ≡ gives v → through_json v ≡ none)
    → ((c : ℤ) (m : Option String) → calls 0 ≡ retry_error c m → ⊥)
    → (execute_task_inline through_json calls true (found false) ≡ (calls 1, 2))
      × (execute_task_inline through_json calls false (found false) ≡ (calls 0, 1))
unfolding execute_task_inline with_rust
execute_task_inline-runs_twice {A = A} through_json calls bad no_retry =
    (by_end (calls 0) refl, refl)
  where
    by_end :
        (c : Called A)
        → calls 0 ≡ c
        → ◌≡◌ {A = Called A × ℕ}
            (elim c [
              | gives v ↦ elim (through_json v) [ some w ↦ (gives w, 1) | none ↦ (calls 1, 2) ]
              | type_error e ↦ (calls 1, 2)
              | retry_error countdown message ↦ (retry_error countdown message, 1)
              | other_error e ↦ (calls 1, 2)
            ])
            (calls 1, 2)
    by_end (gives v) e = rw (bad v e) refl
    by_end (type_error x) e = refl
    by_end (retry_error c m) e = absurd (no_retry c m e)
    by_end (other_error x) e = refl
