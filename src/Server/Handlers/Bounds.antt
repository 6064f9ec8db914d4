-- ===== src/Server/Handlers/Bounds.antt =====
-- The progress of a task stays a percentage, as long as no NaN is sent.
use lapinq.Prelude.{
  ℕ, ◌≡◌, ◌∙◌, refl, ap, subst, not, ◌⊎◌, Bool, true, false, ◌||◌, Option, none, some, Bool-cases,
  inl, inr, ◌==◌, String, arith, leb,
}
use mathlib.Core.Option.{some-injective}
use lapinq.Prelude.Int.{pos, negsuc}
use lapinq.Prelude.Lists.{All}
use lapinq.Prelude.Rows.{All-update_where}
use lapinq.Json.{null, bool, int, float, str, arr, obj}
use lapinq.Storage.Task.{Double, number, nan, infinity, minus_infinity, Task, Table}
use lapinq.Storage.Finish.{update_progress}
use lapinq.Server.Handlers.{
  Value, json, literal, ProgressBody, no_dictionary, values, progress_of, in_percent, set_progress,
  checked_progress, update_progress_handler,
}

-- A number between 0 and 100, in millionths, or a NaN where one is admitted.
abbrev pub is_percent : Bool → Double → Bool
is_percent with_nan (number (pos n)) = leb n 100_000_000
is_percent with_nan (number (negsuc n)) = false
is_percent with_nan nan = with_nan
is_percent with_nan infinity = false
is_percent with_nan minus_infinity = false

-- No progress, or a percentage.
abbrev pub HasPercent : Bool → Task → Type 0
HasPercent with_nan t = elim t.progress [ none ↦ Unit {0} | some p ↦ is_percent with_nan p ≡ true ]

abbrev pub sends_nan : Option ProgressBody → Bool
sends_nan (some (values (literal nan) message)) = true
sends_nan body = false

-- What passes the test of the handler is a NaN or a percentage.
in_percent-cases :
    (with_nan : Bool) (p : Double)
    → in_percent p ≡ true
    → (p ≡ nan) ⊎ (is_percent with_nan p ≡ true)
in_percent-cases with_nan (number (pos n)) h = inr h
in_percent-cases with_nan (number (negsuc n)) h = absurd (ground (arith, h))
in_percent-cases with_nan nan h = inl refl
in_percent-cases with_nan infinity h = absurd (ground (arith, h))
in_percent-cases with_nan minus_infinity h = absurd (ground (arith, h))

progress_of-nan : (v : Value) → progress_of v ≡ some nan → v ≡ literal nan
progress_of-nan (literal d) e = ap literal (some-injective d nan e)
progress_of-nan (json null) e = absurd (ground (arith, e))
progress_of-nan (json (bool b)) e = absurd (ground (arith, e))
progress_of-nan (json (int n)) e = absurd (ground (arith, e))
progress_of-nan (json (float x)) e = absurd (ground (arith, e))
progress_of-nan (json (str t)) e = absurd (ground (arith, e))
progress_of-nan (json (arr js)) e = absurd (ground (arith, e))
progress_of-nan (json (obj f)) e = absurd (ground (arith, e))

value-is_percent :
    (with_nan : Bool) (v message : Value) (p : Double)
    → (with_nan || not (sends_nan (some (values v message)))) ≡ true
    → progress_of v ≡ some p
    → in_percent p ≡ true
    → is_percent with_nan p ≡ true
value-is_percent with_nan v message p h e k = elim (in_percent-cases with_nan p k) [
  | inr percent ↦ percent
  | inl is_nan ↦
      let literal_nan = progress_of-nan v (e ∙ ap some is_nan) in
      rw is_nan (
        by_flag with_nan (
          subst (λ w. (with_nan || not (sends_nan (some (values w message)))) ≡ true) literal_nan
            h))
]
  where
    by_flag : (b : Bool) → (b || false) ≡ true → b ≡ true
    by_flag true e = refl
    by_flag false e = e

module _ (with_nan : Bool) where
  update_progress-HasPercent :
      (task_id : ℕ) (p : Double) (message : Option String) (ts : Table)
      → is_percent with_nan p ≡ true
      → All (HasPercent with_nan) ts
      → All (HasPercent with_nan) (update_progress task_id p message ts)
  unfolding update_progress
  update_progress-HasPercent task_id p message ts e h =
      All-update_where (HasPercent with_nan) (λ t. t.id == task_id)
        (λ t. record t { progress = some p; progress_message = message }) ts (λ t g k. e) h

  set_progress-HasPercent :
      (task_id : ℕ) (p : Double) (message : Value) (ts : Table)
      → is_percent with_nan p ≡ true
      → All (HasPercent with_nan) ts
      → All (HasPercent with_nan) (set_progress task_id p message ts).1
  set_progress-HasPercent task_id p (json null) ts e h =
      update_progress-HasPercent task_id p none ts e h
  set_progress-HasPercent task_id p (json (str text)) ts e h =
      update_progress-HasPercent task_id p (some text) ts e h
  set_progress-HasPercent task_id p (json (bool b)) ts e h = h
  set_progress-HasPercent task_id p (json (int n)) ts e h = h
  set_progress-HasPercent task_id p (json (float n)) ts e h = h
  set_progress-HasPercent task_id p (json (arr n)) ts e h = h
  set_progress-HasPercent task_id p (json (obj n)) ts e h = h
  set_progress-HasPercent task_id p (literal d) ts e h = h

  checked-HasPercent :
      (task_id : ℕ) (o : Option Double) (message : Value) (ts : Table)
      → ((p : Double) → o ≡ some p → in_percent p ≡ true → is_percent with_nan p ≡ true)
      → All (HasPercent with_nan) ts
      → All (HasPercent with_nan) (checked_progress task_id o message ts).1
  checked-HasPercent task_id none message ts good h = h
  checked-HasPercent task_id (some p) message ts good h = elim (Bool-cases (in_percent p)) [
    | inl e ↦ rw e (set_progress-HasPercent task_id p message ts (good p refl e) h)
    | inr e ↦ rw e h
  ]

  -- If the body that is sent to update_progress_endpoint has no NaN as its progress, the progress
  -- of every task stays absent or between 0 and 100; if NaN is admitted (`with_nan`), whatever is
  -- sent, it stays absent, NaN or between 0 and 100.
  pub update_progress_handler-HasPercent :
      (task_id : Option ℕ) (body : Option ProgressBody) (ts : Table)
      → (with_nan || not (sends_nan body)) ≡ true
      → All (HasPercent with_nan) ts
      → All (HasPercent with_nan) (update_progress_handler task_id body ts).1
  unfolding update_progress_handler
  update_progress_handler-HasPercent none body ts n h = h
  update_progress_handler-HasPercent (some k) none ts n h = h
  update_progress_handler-HasPercent (some k) (some no_dictionary) ts n h = h
  update_progress_handler-HasPercent (some k) (some (values v message)) ts n h =
      checked-HasPercent k (progress_of v) message ts
        (λ p e c. value-is_percent with_nan v message p n e c) h
