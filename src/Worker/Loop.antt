-- ===== src/Worker/Loop.antt =====
-- _worker_loop of python/lapinq/worker.py as a step relation: its own statements, the tasks that it
-- starts, the signal handler, and what others do to the table in between.
pub mod Permits
use lapinq.Prelude.{
  ℕ, zero, suc, ◌+◌, ◌*◌, ◌≡◌, String, Bool, true, false, Option, none, some, List, [], ◌∷◌, ◌++◌,
  leb, if◌then◌else◌,
}
use lapinq.Storage.Task.{Task, Table, pending}
use lapinq.Storage.Claim.{claim_task}

-- Where the loop stands: at the test of the shutdown event, at semaphore.acquire(), at claim_task with
-- a permit in hand, in asyncio.sleep, left, or left by an error of claim_task.
pub data Phase : Type 0 where
  testing acquiring claiming sleeping left broken : Phase

-- `jobs` are the tasks whose process_task has not ended; instants and delays are microseconds.
pub record Worker : Type 0 where
  pub phase : Phase
  pub permits : ℕ
  pub jobs : List Task
  pub idle_backoff : ℕ
  pub shutdown : Bool
  pub table : Table

-- The arguments of _worker_loop, and MAX_IDLE_BACKOFF.
pub record Settings : Type 0 where
  pub worker_id : String
  pub concurrency : ℕ
  pub poll_interval : ℕ
  pub max_idle_backoff : ℕ

-- min(idle_backoff * 2, MAX_IDLE_BACKOFF)
abbrev pub doubled : ℕ → ℕ → ℕ
doubled idle max = if leb (idle * 2) max then idle * 2 else max

abbrev pub start : Settings → Table → Worker
start s ts = record {
  phase = testing;
  permits = s.concurrency;
  jobs = [];
  idle_backoff = s.poll_interval;
  shutdown = false;
  table = ts;
}

-- Each step changes the fields that it names.
pub data Step (s : Settings) : Worker → Worker → Type 0 where
  goes_on :
      (w : Worker)
      → w.phase ≡ testing
      → w.shutdown ≡ false
      → Step s w (record w { phase = acquiring })
  stops :
      (w : Worker) → w.phase ≡ testing → w.shutdown ≡ true → Step s w (record w { phase = left })
  acquires :
      (w : Worker) (n : ℕ)
      → w.phase ≡ acquiring
      → w.permits ≡ suc n
      → Step s w (record w { phase = claiming; permits = n })
  takes :
      (w : Worker) (now : ℕ) (locked : ℕ → Bool) (t : Task) (ts : Table)
      → w.phase ≡ claiming
      → claim_task s.worker_id (pending ∷ []) now locked w.table ≡ (some t, ts)
      → Step s w (record w {
        phase = testing;
        jobs = t ∷ w.jobs;
        idle_backoff = s.poll_interval;
        table = ts;
      })
  finds_none :
      (w : Worker) (now : ℕ) (locked : ℕ → Bool) (ts : Table)
      → w.phase ≡ claiming
      → claim_task s.worker_id (pending ∷ []) now locked w.table ≡ (none, ts)
      → Step s w (record w { phase = sleeping; permits = suc w.permits; table = ts })
  breaks : (w : Worker) → w.phase ≡ claiming → Step s w (record w { phase = broken })
  wakes :
      (w : Worker)
      → w.phase ≡ sleeping
      → Step s w
          (record w { phase = testing; idle_backoff = doubled w.idle_backoff s.max_idle_backoff })
  -- the `finally` of process_task, and the done callback
  releases :
      (w : Worker) (before after : List Task) (t : Task)
      → w.jobs ≡ before ++ t ∷ after
      → Step s w (record w { permits = suc w.permits; jobs = before ++ after })
  -- _handle_signal
  signals : (w : Worker) → Step s w (record w { shutdown = true })
  -- any statement of this worker's tasks or of other processes
  moves : (w : Worker) (ts : Table) → Step s w (record w { table = ts })

-- The states that the worker may come to.
pub data Reaches (s : Settings) : Worker → Type 0 where
  begins : (ts : Table) → Reaches s (start s ts)
  steps : (v w : Worker) → Reaches s v → Step s v w → Reaches s w
