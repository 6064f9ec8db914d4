-- ===== src/Worker/Fleet.antt =====
-- Several workers of python/lapinq/worker.py on one table: their claims and reports, and between them
-- the statements of the server, of the clean-up and of the heartbeats.
pub mod Exclusion
mod Examples
use lapinq.Prelude.{ℕ, ◌≡◌, ◌≢◌, String, Bool, ◌⊎◌, Option, some, List, [], ◌∷◌, ◌++◌, map}
use lapinq.Prelude.Lists.{All}
use lapinq.Json.{Json}
use lapinq.Storage.Task.{Task, Table, pending}
use lapinq.Storage.Claim.{claim_task}
use lapinq.Storage.Lifecycle.{Op, apply}
use lapinq.Storage.Lifecycle.Ordinary.{IsOrdinary, IsFresh}
use lapinq.Worker.Process.{Answers, process_task}

-- A call of process_task that has not ended: the worker, and the row that its claim returned.
pub record Job : Type 0 where
  pub worker : String
  pub task : Task

pub record Fleet : Type 0 where
  pub table : Table
  pub jobs : List Job

abbrev pub job_ids : List Job → List ℕ
job_ids = map (λ j. j.task.id)

-- PostgreSQL's `||` on JSONB, ILIKE and the text of a JSONB value; json.dumps.
module _ {ℓ} {A : Type ℓ} (concat : Json → Json → Json) (contains : String → String → Bool)
    (text : Json → String) (dumps : A → String ⊎ String) where
  pub data Step : Fleet → Fleet → Type ℓ where
    -- claim_task hands a row to the worker, which starts process_task on it
    takes :
        (f : Fleet) (w : String) (now : ℕ) (locked : ℕ → Bool) (t : Task) (ts : Table)
        → claim_task w (pending ∷ []) now locked f.table ≡ (some t, ts)
        → Step f (record { table = ts; jobs = record { worker = w; task = t } ∷ f.jobs })
    -- a call of process_task ends, in any way
    reports :
        (f : Fleet) (before after : List Job) (j : Job) (a : Answers A)
        → f.jobs ≡ before ++ j ∷ after
        → Step f
            (record { table = (process_task dumps j.task a f.table).table; jobs = before ++ after })
    -- the process of the worker is lost, with the job
    dies :
        (f : Fleet) (before after : List Job) (j : Job)
        → f.jobs ≡ before ++ j ∷ after
        → Step f (record { table = f.table; jobs = before ++ after })
    -- any other statement, but for recover_stale_tasks and a manual retry
    others :
        (f : Fleet) (op : Op)
        → IsOrdinary op
        → All (IsFresh op) (job_ids f.jobs)
        → Step f (record { table = apply concat contains text op f.table; jobs = f.jobs })

  -- The states that come about from a table while no job is running.
  pub data Reaches (ts : Table) : Fleet → Type ℓ where
    begins : Reaches ts (record { table = ts; jobs = [] })
    steps : (f g : Fleet) → Reaches ts f → Step f g → Reaches ts g
