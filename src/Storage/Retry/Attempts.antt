-- ===== src/Storage/Retry/Attempts.antt =====
-- How often a task that always fails is run.
use lapinq.Prelude.{
  ℕ, ◌+◌, ◌≤◌, String, ◌≡◌, refl, Option, some, List, [], ◌∷◌, arith, ◌==◌, if◌then◌else◌,
}
use lapinq.Prelude.Lists.{length}
use lapinq.Prelude.Int.{pos}
use lapinq.Prelude.Rows.{find-update_where, find-key, update_where}
use lapinq.Storage.Task.{pending, failed, Task, Table, find_task}
use lapinq.Storage.Claim.{claimed}
use lapinq.Storage.Retry.{failure_row, fail_task}
use lapinq.Storage.Retry.Backoff.{find_task-fail_task}

-- One run of a task: a worker takes it, and reports its failure.
pub record Round : Type 0 where
  pub worker_id : String
  pub claimed_at : ℕ
  pub failed_at : ℕ
  pub error : Option String

-- What claim_task does to the row that it takes.
abbrev pub take_task : String → ℕ → ℕ → Table → Table
take_task worker_id now task_id = update_where (λ t. t.id == task_id) (claimed worker_id now)

abbrev fail_round : ℕ → Round → Table → Table
fail_round task_id r ts =
    fail_task r.failed_at task_id r.error (take_task r.worker_id r.claimed_at task_id ts)

abbrev pub fail_rounds : ℕ → List Round → Table → Table
fail_rounds task_id [] ts = ts
fail_rounds task_id (r ∷ rs) ts = fail_rounds task_id rs (fail_round task_id r ts)

pub find-take_task :
    (w : String) (now task_id : ℕ) (ts : Table) (t : Task)
    → find_task task_id ts ≡ some t
    → find_task task_id (take_task w now task_id ts) ≡ some (claimed w now t)
find-take_task w now task_id ts t e = ground (
  arith,
  find-key (λ u. u.id) task_id ts t e,
  find-update_where (λ u. u.id) task_id (λ u. u.id == task_id) (claimed w now) ts (λ u. refl),
)

find-fail_round :
    (task_id : ℕ) (r : Round) (ts : Table) (t : Task)
    → find_task task_id ts ≡ some t
    → (u : Task) × (find_task task_id (fail_round task_id r ts) ≡ some u)
      × (u
          ≡ failure_row r.failed_at r.error
              (claimed r.worker_id r.claimed_at t)
              (claimed r.worker_id r.claimed_at t))
find-fail_round task_id r ts t e = (
  failure_row r.failed_at r.error (claimed r.worker_id r.claimed_at t)
      (claimed r.worker_id r.claimed_at t),
  ground (
    arith,
    find_task-fail_task r.failed_at task_id task_id r.error
        (take_task r.worker_id r.claimed_at task_id ts) (claimed r.worker_id r.claimed_at t)
        (find-take_task r.worker_id r.claimed_at task_id ts t e),
  ),
  refl,
)

-- A task whose `max_retries` is `m` and whose every run fails is pending again after each run that
-- brings its attempts to less than `m`, and failed after the run that brings them to `m`; each run
-- adds one to the attempts.
pub fail_rounds-attempts :
    (task_id m : ℕ) (r : Round) (rs : List Round) (ts : Table) (t : Task)
    → find_task task_id ts ≡ some t
    → t.max_retries ≡ pos m
    → t.attempts + length (r ∷ rs) ≤ m
    → (u : Task) × (find_task task_id (fail_rounds task_id (r ∷ rs) ts) ≡ some u)
      × (u.attempts ≡ t.attempts + length (r ∷ rs))
      × (u.status ≡ (if t.attempts + length (r ∷ rs) == m then failed else pending))
unfolding failure_row
fail_rounds-attempts task_id m r [] ts t e lim room =
    let (u, found, eq) = find-fail_round task_id r ts t e in (u, found, ground arith, ground arith)
fail_rounds-attempts task_id m r (r' ∷ rs) ts t e lim room =
    let (u, found, eq) = find-fail_round task_id r ts t e in
    let (v, found', n, s) =
      fail_rounds-attempts task_id m r' rs (fail_round task_id r ts) u found (ground arith)
        (ground arith) in
    (v, found', ground arith, ground arith)
