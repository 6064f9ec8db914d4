-- ===== src/Storage/Claim/Choice.antt =====
-- The row that `claim_task` takes: it is claimable and no claimable row goes before it.
use lapinq.Prelude.{
  ℕ, String, ◌≡◌, sym, subst, ◌≢◌, inl, inr, Bool, true, false, none, some, List, [], ◌∷◌, map,
  arith, Bool-cases, Option-cases, ◌==◌,
}
use lapinq.Prelude.Lists.{All, All-map, Distinct}
use lapinq.Prelude.Rows.{update_where}
use lapinq.Storage.Task.{Status, pending, Task, Table, find_task}
use lapinq.Storage.Claim.{is_claimable, goes_before, select_first, claimed, claim_task}

goes_before_trans :
    (a b c : Task) → goes_before a b ≡ false → goes_before b c ≡ false → goes_before a c ≡ false
unfolding goes_before
goes_before_trans a b c h k = ground arith

goes_before_asym : (a b : Task) → goes_before a b ≡ true → goes_before b a ≡ false
unfolding goes_before
goes_before_asym a b h = ground arith

goes_before_irrefl : (a : Task) → goes_before a a ≡ false
unfolding goes_before
goes_before_irrefl a = ground arith

pub claimable-pending :
    (now : ℕ) (locked : ℕ → Bool) (t : Task)
    → is_claimable (pending ∷ []) now locked t ≡ true
    → t.status ≡ pending
unfolding is_claimable
claimable-pending now locked t h = ground arith

module _ (wanted : Task → Bool) where
  -- `t` goes before every row that is wanted, or beside it.
  abbrev pub IsFirst : Task → Table → Type 0
  IsFirst t ts = All (λ u. wanted u ≡ true → goes_before u t ≡ false) ts

  pub select_first-none :
      (ts : Table) → select_first wanted ts ≡ none → All (λ u. wanted u ≡ false) ts
  unfolding select_first
  select_first-none [] h = tt
  select_first-none (t ∷ ts) h = ground (arith, select_first-none ts)

  -- How a choice from a longer table comes about.
  data Chosen (u : Task) (ts : Table) (t : Task) : Type 0 where
    later :
        select_first wanted ts ≡ some t
        → (wanted u ≡ true → goes_before u t ≡ false)
        → Chosen u ts t
    only : wanted u ≡ true → select_first wanted ts ≡ none → t ≡ u → Chosen u ts t
    sooner :
        (v : Task)
        → wanted u ≡ true
        → select_first wanted ts ≡ some v
        → goes_before v u ≡ false
        → t ≡ u
        → Chosen u ts t

  chosen :
      (u : Task) (ts : Table) (t : Task) → select_first wanted (u ∷ ts) ≡ some t → Chosen u ts t
  unfolding select_first
  chosen u ts t h = elim (Option-cases (select_first wanted ts)) [
    | inl e ↦ elim (Bool-cases (wanted u)) [
      | inl w ↦ only w e (ground arith)
      | inr w ↦ later (ground arith) (ground arith)
    ]
    | inr (v, e) ↦ elim (Bool-cases (wanted u)) [
      | inl w ↦ elim (Bool-cases (goes_before v u)) [
        | inl b ↦ later (ground arith) (ground (arith, goes_before_asym t u))
        | inr b ↦ sooner v w e b (ground arith)
      ]
      | inr w ↦ later (ground arith) (ground arith)
    ]
  ]

  pub select_first-wanted :
      (ts : Table) (t : Task) → select_first wanted ts ≡ some t → wanted t ≡ true
  unfolding select_first
  select_first-wanted [] t h = ground arith
  select_first-wanted (u ∷ ts) t h = elim (chosen u ts t h) [
    | later e _ ↦ select_first-wanted ts t e
    | only w _ q ↦ rw q w
    | sooner v w _ _ q ↦ rw q w
  ]

  -- What holds of every row holds of the chosen one.
  pub select_first-All {ℓ} :
      (P : Task → Type ℓ) (ts : Table) (t : Task) → All P ts → select_first wanted ts ≡ some t → P t
  unfolding select_first
  select_first-All P [] t a h = ground arith
  select_first-All P (u ∷ ts) t (p, a) h = elim (chosen u ts t h) [
    | later e _ ↦ select_first-All P ts t a e
    | only w _ q ↦ subst P (sym q) p
    | sooner v w _ _ q ↦ subst P (sym q) p
  ]

  pub select_first-IsFirst :
      (ts : Table) (t : Task) → select_first wanted ts ≡ some t → IsFirst t ts
  unfolding select_first
  select_first-IsFirst [] t h = tt
  select_first-IsFirst (u ∷ ts) t h = elim (chosen u ts t h) [
    | later e b ↦ (b, select_first-IsFirst ts t e)
    | only w e q ↦
        subst (λ x. IsFirst x (u ∷ ts)) (sym q)
          (
            λ _. goes_before_irrefl u,
            All-map (λ x. wanted x ≡ false) (λ x. wanted x ≡ true → goes_before x u ≡ false) ts
                (λ x n w'. ground arith) (select_first-none ts e),
          )
    | sooner v w e b q ↦
        subst (λ x. IsFirst x (u ∷ ts)) (sym q)
          (
            λ _. goes_before_irrefl u,
            All-map (λ x. wanted x ≡ true → goes_before x v ≡ false)
                (λ x. wanted x ≡ true → goes_before x u ≡ false) ts
                (λ x f w'. goes_before_trans x v u (f w') b) (select_first-IsFirst ts v e),
          )
  ]

  -- With distinct identifiers the chosen row is the one that a look-up finds.
  pub find_task-select_first :
      (ts : Table) (t : Task)
      → Distinct (map (λ u. u.id) ts)
      → select_first wanted ts ≡ some t
      → find_task t.id ts ≡ some t
  unfolding select_first
  find_task-select_first [] t d h = ground arith
  find_task-select_first (u ∷ ts) t (n, d) h = elim (chosen u ts t h) [
    | later e _ ↦ ground (
      arith,
      find_task-select_first ts t d e,
      select_first-All (λ x. x.id ≢ u.id) ts t (All-of_map ts n) e,
    )
    | only w _ q ↦ ground arith
    | sooner v w _ _ q ↦ ground arith
  ]
    where
      All-of_map :
          (us : Table) → All (λ j. j ≢ u.id) (map (λ x. x.id) us) → All (λ x. x.id ≢ u.id) us
      All-of_map [] a = tt
      All-of_map (x ∷ us) (p, a) = (p, All-of_map us a)

-- If claim_task returns a row, of a table with distinct identifiers, the table had one claimable
-- row `t` that no claimable row goes before, which a look-up by its identifier finds; the row
-- returned is `t` as claimed, and the table changes at that identifier only.
pub claim_task-IsFirst :
    (worker_id : String) (statuses : List Status) (now : ℕ) (locked : ℕ → Bool) (ts ts' : Table)
    (t' : Task)
    → Distinct (map (λ u. u.id) ts)
    → claim_task worker_id statuses now locked ts ≡ (some t', ts')
    → (t : Task) × (t' ≡ claimed worker_id now t)
      × (find_task t.id ts ≡ some t)
      × (is_claimable statuses now locked t ≡ true)
      × IsFirst (is_claimable statuses now locked) t ts
      × (ts' ≡ update_where (λ u. u.id == t.id) (claimed worker_id now) ts)
unfolding claim_task
claim_task-IsFirst worker_id statuses now locked ts ts' t' d h =
    elim (Option-cases (select_first (is_claimable statuses now locked) ts)) [
      | inl e ↦ absurd (ground arith)
      | inr (t, e) ↦ (
        t,
        ground arith,
        find_task-select_first _ ts t d e,
        select_first-wanted _ ts t e,
        select_first-IsFirst _ ts t e,
        ground arith,
      )
    ]
