-- ===== src/Storage/Claim/Exclusion.antt =====
-- Claims in a row, by any workers: no task is handed out twice.
use lapinq.Prelude.{
  ℕ, String, ◌≡◌, refl, sym, subst, ◌≢◌, inl, inr, Bool, Option, none, some, List, [], ◌∷◌, map,
  arith, Option-cases, ◌==◌,
}
use lapinq.Prelude.Lists.{All, All-map, Distinct}
use lapinq.Prelude.Rows.{find-key, find-update_where, map-update_where, update_where}
use lapinq.Storage.Task.{Task, Table, pending, find_task}
use lapinq.Storage.Claim.{is_claimable, select_first, claimed, claim_task}
use lapinq.Storage.Claim.Choice.{claimable-pending, claim_task-IsFirst}

-- A call: the worker, the instant of the statement, the rows that other transactions hold then.
abbrev pub Call : Type 0
Call = String × ℕ × (ℕ → Bool)

abbrev pub ids : Table → List ℕ
ids = map (λ t. t.id)

abbrev pub cons_some : Option Task → List Task → List Task
cons_some none ts = ts
cons_some (some t) ts = t ∷ ts

-- The tasks that the calls return, in turn, under the default `statuses`.
unfoldable pub claim_all : List Call → Table → List Task
claim_all [] ts = []
claim_all ((w, now, locked) ∷ calls) ts =
    let (t, ts') = claim_task w (pending ∷ []) now locked ts in cons_some t (claim_all calls ts')

-- The table has a pending row with this identifier.
abbrev pub IsPendingIn : Table → ℕ → Type 0
IsPendingIn ts k = (r : Task) × (find_task k ts ≡ some r) × (r.status ≡ pending)

still_pending :
    (w : String) (now : ℕ) (ts : Table) (i k : ℕ) (r : Task)
    → find_task k (update_where (λ u. u.id == i) (claimed w now) ts) ≡ some r
    → r.status ≡ pending
    → (find_task k ts ≡ some r) × (k ≢ i)
still_pending w now ts i k r h p =
    let moved = find-update_where (λ u. u.id) k (λ u. u.id == i) (claimed w now) ts (λ u. refl) in
    elim (Option-cases (find_task k ts)) [
      | inl e ↦ absurd (ground (arith, moved))
      | inr (q, e) ↦
          let at = find-key (λ u. u.id) k ts q e in
          (ground (arith, moved, at), ground (arith, moved, at))
    ]

-- The rows that are pending after a claim were pending before it, and are not the claimed one.
pending_before :
    (w : String) (now : ℕ) (locked : ℕ → Bool) (ts ts' : Table) (t : Task) (k : ℕ)
    → Distinct (ids ts)
    → claim_task w (pending ∷ []) now locked ts ≡ (some t, ts')
    → IsPendingIn ts' k
    → IsPendingIn ts k × (k ≢ t.id)
pending_before w now locked ts ts' t k d h (r, found, p) =
    let (u, eq, at, ok, first, moved) =
      claim_task-IsFirst w (pending ∷ []) now locked ts ts' t d h in
    let (before, other) = still_pending w now ts u.id k r (rw moved at found) p in
    ((r, before, p), rw eq other)

claimed-pending :
    (w : String) (now : ℕ) (locked : ℕ → Bool) (ts ts' : Table) (t : Task)
    → Distinct (ids ts)
    → claim_task w (pending ∷ []) now locked ts ≡ (some t, ts')
    → IsPendingIn ts t.id
claimed-pending w now locked ts ts' t d h =
    let (u, eq, at, ok, first, moved) =
      claim_task-IsFirst w (pending ∷ []) now locked ts ts' t d h in
    rw eq (u, at, claimable-pending now locked u ok)

-- A split on the outcome of one claim.
data Outcome (w : String) (now : ℕ) (locked : ℕ → Bool) (ts : Table) : Type 0 where
  idle : claim_task w (pending ∷ []) now locked ts ≡ (none, ts) → Outcome w now locked ts
  took :
      (t : Task) (ts' : Table)
      → claim_task w (pending ∷ []) now locked ts ≡ (some t, ts')
      → Distinct (ids ts')
      → Outcome w now locked ts

outcome :
    (w : String) (now : ℕ) (locked : ℕ → Bool) (ts : Table)
    → Distinct (ids ts)
    → Outcome w now locked ts
unfolding claim_task
outcome w now locked ts d =
    elim (Option-cases (select_first (is_claimable (pending ∷ []) now locked) ts)) [
      | inl e ↦ idle (ground arith)
      | inr (t, e) ↦
          took (claimed w now t) (update_where (λ u. u.id == t.id) (claimed w now) ts)
            (ground arith)
            (subst Distinct
              (sym
                (map-update_where (λ u. u.id) (λ u. u.id == t.id) (claimed w now) ts (λ u. refl)))
              d)
    ]

-- Every task that the calls return was pending at the start.
pub claim_all-pending :
    (calls : List Call) (ts : Table)
    → Distinct (ids ts)
    → All (IsPendingIn ts) (ids (claim_all calls ts))
unfolding claim_all
claim_all-pending [] ts d = tt
claim_all-pending ((w, now, locked) ∷ calls) ts d = elim (outcome w now locked ts d) [
  | idle e ↦ rw e (claim_all-pending calls ts d)
  | took t ts' e d' ↦ rw e (
    claimed-pending w now locked ts ts' t d e,
    All-map (IsPendingIn ts') (IsPendingIn ts) (ids (claim_all calls ts'))
        (λ k q. (pending_before w now locked ts ts' t k d e q).0) (claim_all-pending calls ts' d'),
  )
]

-- However the claims of any workers follow one another on a table with distinct identifiers,
-- whatever rows are locked at each, and with no other operation in between, the tasks that
-- claim_task returns are pairwise different.
pub claim_all-Distinct :
    (calls : List Call) (ts : Table) → Distinct (ids ts) → Distinct (ids (claim_all calls ts))
unfolding claim_all
claim_all-Distinct [] ts d = tt
claim_all-Distinct ((w, now, locked) ∷ calls) ts d = elim (outcome w now locked ts d) [
  | idle e ↦ rw e (claim_all-Distinct calls ts d)
  | took t ts' e d' ↦ rw e (
    All-map (IsPendingIn ts') (λ k. k ≢ t.id) (ids (claim_all calls ts'))
        (λ k q. (pending_before w now locked ts ts' t k d e q).1) (claim_all-pending calls ts' d'),
    claim_all-Distinct calls ts' d',
  )
]
