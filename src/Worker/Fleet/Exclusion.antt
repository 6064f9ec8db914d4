-- ===== src/Worker/Fleet/Exclusion.antt =====
-- No two unfinished jobs of the workers are of the same task.
use lapinq.Prelude.{
  ℕ, ◌≡◌, ◌≢◌, refl, sym, ap, ◌∙◌, subst, String, Bool, ◌⊎◌, some, List, [], ◌∷◌, ◌++◌, arith, ◌==◌,
}
use lapinq.Prelude.Lists.{All, All-map, Distinct}
use lapinq.Prelude.Rows.{update_where, find-update_where}
use lapinq.Json.{Json}
use lapinq.Storage.Task.{Task, Table, pending, find_task}
use lapinq.Storage.Claim.{claim_task, claimed}
use lapinq.Storage.Claim.Choice.{claim_task-IsFirst, claimable-pending}
use lapinq.Storage.Lifecycle.{Op, apply}
use lapinq.Storage.Lifecycle.Invariant.{ids}
use lapinq.Storage.Lifecycle.Ordinary.{IsOrdinary, IsFresh, IsHeld, apply-Keeps, apply-IsHeld}
use lapinq.Storage.Retry.Locality.{IsLocal, update-IsLocal, unchanged}
use lapinq.Worker.Process.Locality.{process_task-IsLocal}
use lapinq.Worker.Fleet.{
  Job, Fleet, job_ids, Step, takes, reports, dies, others, Reaches, begins, steps,
}

-- What holds at every state: the identifiers are distinct, no two jobs share one, and a claim or a
-- requeue of a task that has a job meets nothing.
pub record IsExclusive (f : Fleet) : Type 0 where
  pub distinct : Distinct (ids f.table)
  pub unique : Distinct (job_ids f.jobs)
  pub held : All (IsHeld f.table) (job_ids f.jobs)

All-less {κ} :
    (P : ℕ → Type κ) (before after : List Job) (j : Job)
    → All P (job_ids (before ++ j ∷ after))
    → All P (job_ids (before ++ after))
All-less P [] after j h = h.1
All-less P (i ∷ before) after j h = (h.0, All-less P before after j h.1)

All-at {κ} :
    (P : ℕ → Type κ) (before after : List Job) (j : Job)
    → All P (job_ids (before ++ j ∷ after))
    → P j.task.id
All-at P [] after j h = h.0
All-at P (i ∷ before) after j h = All-at P before after j h.1

-- The other jobs, once one has ended, are of other tasks.
others_differ :
    (before after : List Job) (j : Job)
    → Distinct (job_ids (before ++ j ∷ after))
    → All (λ k. k ≢ j.task.id) (job_ids (before ++ after)) × Distinct (job_ids (before ++ after))
others_differ [] after j h = h
others_differ (i ∷ before) after j h =
    let (differ, rest) = others_differ before after j h.1 in
    (
      (λ e. All-at (λ k. k ≢ i.task.id) before after j h.0 (sym e), differ),
      (All-less (λ k. k ≢ i.task.id) before after j h.0, rest),
    )

-- What is held stays so where a statement leaves the row as it is.
local-IsHeld : (k i : ℕ) (ts us : Table) → IsLocal k ts us → i ≢ k → IsHeld ts i → IsHeld us i
local-IsHeld k i ts us l n h t e = h t (sym (l.elsewhere i n) ∙ e)

held_elsewhere :
    (k : ℕ) (ts us : Table) (is : List ℕ)
    → IsLocal k ts us
    → All (λ i. i ≢ k) is
    → All (IsHeld ts) is
    → All (IsHeld us) is
held_elsewhere k ts us [] l n h = tt
held_elsewhere k ts us (i ∷ is) l n h =
    (local-IsHeld k i ts us l n.0 h.0, held_elsewhere k ts us is l n.1 h.1)

-- The row that a claim hands out is running, and no job had it.
module _ (w : String) (now : ℕ) (u : Task) (ts : Table) (at : find_task u.id ts ≡ some u) where
  claimed-IsHeld : IsHeld (update_where (λ v. v.id == u.id) (claimed w now) ts) u.id
  claimed-IsHeld r e = ground (
    arith,
    find-update_where (λ v. v.id) u.id (λ v. v.id == u.id) (claimed w now) ts (λ v. refl),
    at,
    e,
  )

  held_differ : (is : List ℕ) → u.status ≡ pending → All (IsHeld ts) is → All (λ k. k ≢ u.id) is
  held_differ is p =
      All-map (IsHeld ts) (λ k. k ≢ u.id) is
        (λ k h e. (h u (ap (λ i. find_task i ts) e ∙ at)).not_pending p)

takes-IsExclusive :
    (f : Fleet) (w : String) (now : ℕ) (locked : ℕ → Bool) (t : Task) (ts : Table)
    → claim_task w (pending ∷ []) now locked f.table ≡ (some t, ts)
    → IsExclusive f
    → IsExclusive (record { table = ts; jobs = record { worker = w; task = t } ∷ f.jobs })
takes-IsExclusive f w now locked t ts e x =
    let (u, eq, at, ok, first, moved) =
      claim_task-IsFirst w (pending ∷ []) now locked f.table ts t x.distinct e in
    let differ =
      held_differ w now u f.table at (job_ids f.jobs) (claimable-pending now locked u ok) x.held in
    let local = update-IsLocal u.id (claimed w now) f.table (λ v. refl) in
    rw (eq, moved)
      (record {
        distinct = subst Distinct (sym local.same_ids) x.distinct;
        unique = (differ, x.unique);
        held = (
          claimed-IsHeld w now u f.table at,
          held_elsewhere u.id f.table _ (job_ids f.jobs) local differ x.held,
        );
      })

-- A job that ends writes to its own row only.
ends-IsExclusive :
    (f : Fleet) (ts : Table) (before after : List Job) (j : Job)
    → f.jobs ≡ before ++ j ∷ after
    → IsLocal j.task.id f.table ts
    → IsExclusive f
    → IsExclusive (record { table = ts; jobs = before ++ after })
ends-IsExclusive f ts before after j e l x =
    let (differ, unique) =
      others_differ before after j (subst (λ js. Distinct (job_ids js)) e x.unique) in
    let held =
      All-less (IsHeld f.table) before after j
        (subst (λ js. All (IsHeld f.table) (job_ids js)) e x.held) in
    record {
      distinct = subst Distinct (sym l.same_ids) x.distinct;
      unique = unique;
      held = held_elsewhere j.task.id f.table ts (job_ids (before ++ after)) l differ held;
    }

module _ {ℓ} {A : Type ℓ} (concat : Json → Json → Json) (contains : String → String → Bool)
    (text : Json → String) (dumps : A → String ⊎ String) where
  others-IsExclusive :
      (f : Fleet) (op : Op)
      → IsOrdinary op
      → All (IsFresh op) (job_ids f.jobs)
      → IsExclusive f
      → IsExclusive (record { table = apply concat contains text op f.table; jobs = f.jobs })
  others-IsExclusive f op o n x = record {
    distinct = (apply-Keeps concat contains text op 0 f.table o).distinct x.distinct;
    unique = x.unique;
    held = keep (job_ids f.jobs) n x.held;
  }
    where
      keep :
          (is : List ℕ)
          → All (IsFresh op) is
          → All (IsHeld f.table) is
          → All (IsHeld (apply concat contains text op f.table)) is
      keep [] n h = tt
      keep (i ∷ is) n h =
          (apply-IsHeld concat contains text op i f.table o n.0 x.distinct h.0, keep is n.1 h.1)

  Step-IsExclusive :
      (f g : Fleet) → Step concat contains text dumps f g → IsExclusive f → IsExclusive g
  Step-IsExclusive f g (takes v w now locked t ts e) x = takes-IsExclusive v w now locked t ts e x
  Step-IsExclusive f g (reports v before after j a e) x =
      ends-IsExclusive v _ before after j e (process_task-IsLocal dumps j.task a v.table) x
  Step-IsExclusive f g (dies v before after j e) x =
      ends-IsExclusive v _ before after j e (unchanged j.task.id v.table) x
  Step-IsExclusive f g (others v op o n) x = others-IsExclusive v op o n x

  -- Whatever any number of workers do on one table that starts with distinct identifiers (claims,
  -- calls of process_task that end in any way, lost processes), with any other statements in
  -- between but recover_stale_tasks and manual retries, and if no new identifier is that of an
  -- unfinished job: the identifiers stay distinct, no two unfinished jobs are of the same task,
  -- and the row of each, if it is there, is neither pending nor failed.
  pub Reaches-IsExclusive :
      (ts : Table) (f : Fleet)
      → Distinct (ids ts)
      → Reaches concat contains text dumps ts f
      → IsExclusive f
  Reaches-IsExclusive ts f d begins = record { distinct = d; unique = tt; held = tt }
  Reaches-IsExclusive ts f d (steps v g r s) = Step-IsExclusive v g s (Reaches-IsExclusive ts v d r)
