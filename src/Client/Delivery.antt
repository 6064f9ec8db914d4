-- ===== src/Client/Delivery.antt =====
-- A task on its way through the whole program: the handler `enqueue` of python/lapinq/server.py, a
-- claim and process_task of python/lapinq/worker.py, and TaskRef.wait of python/lapinq/client.py.
use lapinq.Prelude.{
  ℕ, ◌≡◌, refl, sym, ap, ◌∙◌, subst, String, Bool, false, ◌⊎◌, inl, inr, none, some, List, [], ◌∷◌,
  ◌++◌, arith, ◌==◌,
}
use lapinq.Prelude.Lists.{All, Distinct}
use lapinq.Prelude.Rows.{find-update_where, Distinct-snoc}
use lapinq.Storage.Task.{Task, Table, pending, running, completed, is_final, find_task}
use lapinq.Storage.Claim.{claim_task, claimed}
use lapinq.Storage.Claim.Choice.{claim_task-IsFirst}
use lapinq.Storage.Claim.Exclusion.{ids}
use lapinq.Storage.Finish.{completed_row}
use lapinq.Storage.Queries.{TaskResult, result_of}
use lapinq.Server.Enqueueing.{Readers, Post, created, enqueue_handler}
use lapinq.Server.Enqueueing.Answers.{enqueue_handler-answers}
use lapinq.Server.Handlers.{result_is}
use lapinq.Worker.Process.{returned, Answers, process_task}
use lapinq.Worker.Process.Settling.{process_task-settles, verdict, settled_row}
use lapinq.Client.{wait}
use lapinq.Client.Waiting.{is_final_task, first_final-append, answered, wait-first_final}

find-snoc :
    (k : ℕ) (row : Task) (ts : Table)
    → row.id ≡ k
    → find_task k ts ≡ none
    → find_task k (ts ++ row ∷ []) ≡ some row
find-snoc k row [] e n = ground arith
find-snoc k row (t ∷ ts) e n = ground (arith, find-snoc k row ts e)

-- The table has the row that the handler answered for, and still distinct identifiers.
record IsStored (id : ℕ) (ts : Table) : Type 0 where
  row : Task
  found : find_task id ts ≡ some row
  waits : row.status ≡ pending
  distinct : Distinct (ids ts)

handled-IsStored :
    (readers : Readers) (id now : ℕ) (post : Post) (ts ts' : Table)
    → Distinct (ids ts)
    → enqueue_handler readers id now post ts ≡ (created (some id), ts')
    → IsStored id ts'
handled-IsStored readers id now post ts ts' d h =
    elim (enqueue_handler-answers readers id now post ts) [
      | inl (row, e, same, fresh, waits, _, _, _) ↦
          subst (IsStored id) (ap (λ p. p.1) (sym e ∙ h)) (record {
            row = row;
            found = find-snoc id row ts same fresh;
            waits = waits;
            distinct = Distinct-snoc (λ t. t.id) row ts d (ap (λ i. find_task i ts) same ∙ fresh);
          })
      | inr (_, refuses) ↦ absurd (refuses id (ap (λ p. p.0) h))
    ]

-- A claim that hands out this task gives a row that is found afterwards, and runs.
claimed_found :
    (w : String) (now id : ℕ) (locked : ℕ → Bool) (ts ts' : Table) (job : Task)
    → Distinct (ids ts)
    → claim_task w (pending ∷ []) now locked ts ≡ (some job, ts')
    → (find_task job.id ts' ≡ some job) × (job.status ≡ running)
claimed_found w now id locked ts ts' job d e =
    let (u, eq, at, ok, first, moved) =
      claim_task-IsFirst w (pending ∷ []) now locked ts ts' job d e in
    rw (eq, moved)
      (
        ground (
          arith,
          find-update_where (λ v. v.id) u.id (λ v. v.id == u.id) (claimed w now) ts (λ v. refl),
          at,
        ),
        refl,
      )

verdict-returned {ℓ} :
    {A : Type ℓ} (dumps : A → String ⊎ String) (v : A) (text : String)
    → dumps v ≡ inr text
    → verdict dumps (returned (some v)) ≡ inr (some text)
verdict-returned dumps v text h = ground arith

-- The polls before the end of the run see the table as the handler or as the claim left it.
abbrev pub SeesBefore : Table → Table → Table → Type 0
SeesBefore stored taken ts = (ts ≡ stored) ⊎ (ts ≡ taken)

not_yet :
    (id : ℕ) (stored taken : Table) (early : List Table)
    → is_final_task (find_task id stored) ≡ false
    → is_final_task (find_task id taken) ≡ false
    → All (SeesBefore stored taken) early
    → All (λ us. is_final_task (find_task id us) ≡ false) early
not_yet id stored taken [] p q h = tt
not_yet id stored taken (us ∷ early) p q (inl e, h) = (rw e p, not_yet id stored taken early p q h)
not_yet id stored taken (us ∷ early) p q (inr e, h) = (rw e q, not_yet id stored taken early p q h)

-- A task that the handler `enqueue` has answered for, on a table with distinct identifiers, that a
-- worker then claims and whose run returns a value with JSON text `text`, when the two statements
-- of process_task go through and no other statement changes the table from the answer of `enqueue`
-- until the last poll (no cancellation, recovery or clean-up, for example): TaskRef.wait, polling
-- from before the claim until after the end of the run, returns the identifier, the status
-- completed, the result `text` and the time of completion.
pub wait-enqueue_handler {ℓ} :
    {A : Type ℓ} (readers : Readers) (id now then : ℕ) (post : Post) (ts stored taken : Table)
    (w : String) (locked : ℕ → Bool) (job : Task) (dumps : A → String ⊎ String) (a : Answers A)
    (v : A) (text : String) (early late : List Table)
    → Distinct (ids ts)
    → enqueue_handler readers id now post ts ≡ (created (some id), stored)
    → claim_task w (pending ∷ []) then locked stored ≡ (some job, taken)
    → job.id ≡ id
    → a.run ≡ returned (some v)
    → dumps v ≡ inr text
    → a.complete_error ≡ none
    → a.fail_error ≡ none
    → All (SeesBefore stored taken) early
    → (r : TaskResult) × (wait id (early ++ (process_task dumps job a taken).table ∷ late)
        ≡ some (result_is r))
      × (r.id ≡ id)
      × (r.status ≡ completed)
      × (r.result ≡ some text)
      × (r.completed_at ≡ some a.now)
wait-enqueue_handler readers id now then post ts stored taken w locked job dumps a v text early late
      d sent took same ran dumped c f seen =
    let s : IsStored id stored = handled-IsStored readers id now post ts stored d sent in
    let (there, runs) = claimed_found w then id locked stored taken job s.distinct took in
    let settled = process_task-settles dumps a job job taken there c f in
    let done : settled_row a.now (verdict dumps a.run) job ≡ completed_row a.now (some text) job =
      ap (λ x. settled_row a.now x job)
        (ap (verdict dumps) ran ∙ verdict-returned dumps v text dumped) in
    let row : find_task id (process_task dumps job a taken).table
        ≡ some (completed_row a.now (some text) job) =
      ap (λ i. find_task i (process_task dumps job a taken).table) (sym same)
      ∙ settled.0
      ∙ ap some done in
    let before : is_final_task (find_task id stored) ≡ false =
      ap is_final_task s.found ∙ ap is_final s.waits in
    let during : is_final_task (find_task id taken) ≡ false =
      ap (λ i. is_final_task (find_task i taken)) (sym same)
      ∙ ap is_final_task there
      ∙ ap is_final runs in
    (
      result_of (completed_row a.now (some text) job),
      wait-first_final id (early ++ (process_task dumps job a taken).table ∷ late)
          ∙ ap answered (
              first_final-append id early late (process_task dumps job a taken).table
                (completed_row a.now (some text) job)
                (not_yet id stored taken early before during seen) row refl),
      same,
      refl,
      refl,
      refl,
    )
