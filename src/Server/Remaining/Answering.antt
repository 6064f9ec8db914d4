-- ===== src/Server/Remaining/Answering.antt =====
-- When a task can be answered with.
use lapinq.Prelude.{
  ℕ, String, suc, ◌+◌, ◌≡◌, refl, Bool, true, false, ◌&&◌, Option, none, some, List, [], ◌∷◌, arith,
  leb, if◌then◌else◌, is_some,
}
use lapinq.Prelude.Int.{ℤ, pos, negsuc}
use lapinq.Prelude.Lists.{all}
use lapinq.Storage.Task.{Task}
use lapinq.Server.Remaining.{
  last_instant, format_ttl, is_written, task_response, both_responses, task_responses,
}

-- The end of the time to live is a datetime.
abbrev pub is_datable : ℕ → Option ℤ → Bool
is_datable created_at none = true
is_datable created_at (some (pos ttl)) = leb (created_at + ttl) last_instant
is_datable created_at (some (negsuc n)) = leb (suc n) created_at

pub is_some-format_ttl :
    (now created_at : ℕ) (ttl : Option ℤ)
    → is_some (format_ttl now created_at ttl) ≡ is_datable created_at ttl
unfolding format_ttl
is_some-format_ttl now created_at none = refl
is_some-format_ttl now created_at (some (pos ttl)) = ground arith
is_some-format_ttl now created_at (some (negsuc n)) = ground arith

abbrev pub is_answered : Bool → Task → Bool
is_answered writes_nan t = is_datable t.created_at t.ttl_seconds && is_written writes_nan t.progress

pub task_response_lem :
    (writes_nan : Bool) (now : ℕ) (t : Task)
    → task_response writes_nan now t ≡ (if is_answered writes_nan t then some t else none)
unfolding task_response
task_response_lem writes_nan now t =
    by_text (format_ttl now t.created_at t.ttl_seconds)
      (is_some-format_ttl now t.created_at t.ttl_seconds)
  where
    by_text :
        (o : Option String)
        → is_some o ≡ is_datable t.created_at t.ttl_seconds
        → (elim o as (λ x. Option Task) [
          | none ↦ none
          | some ttl ↦ if is_written writes_nan t.progress then some t else none
        ])
          ≡ (if is_answered writes_nan t then some t else none)
    by_text none e = ground (arith, e)
    by_text (some ttl) e = ground (arith, e)

pub task_responses_lem :
    (writes_nan : Bool) (now : ℕ) (ts : List Task)
    → task_responses writes_nan now ts ≡ (if all (is_answered writes_nan) ts then some ts else none)
unfolding task_responses
task_responses_lem writes_nan now [] = refl
task_responses_lem writes_nan now (t ∷ ts) =
    rw (task_response_lem writes_nan now t, task_responses_lem writes_nan now ts)
      (by_tests (is_answered writes_nan t) (all (is_answered writes_nan) ts))
  where
    by_tests :
        (a b : Bool)
        → both_responses (if a then some t else none) (if b then some ts else none)
          ≡ (if a && b then some (t ∷ ts) else none)
    by_tests true true = refl
    by_tests true false = refl
    by_tests false b = refl
