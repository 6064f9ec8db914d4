-- ===== src/Worker/Loop/Permits.antt =====
-- The semaphore and the idle delay over every run of the worker loop.
use lapinq.Prelude.{ℕ, suc, ◌+◌, ◌≤◌, ◌<◌, ◌≡◌, refl, ap, List, [], ◌∷◌, arith}
use lapinq.Prelude.Lists.{length, length-append}
use lapinq.Storage.Task.{Task}
use lapinq.Worker.Loop.{
  Phase, testing, acquiring, claiming, sleeping, broken, Worker, Settings, Step, goes_on, stops,
  acquires, takes, finds_none, breaks, wakes, releases, signals, moves, Reaches, begins, steps,
}

-- The permit that the loop itself holds; one is lost where claim_task raised.
abbrev pub held : Phase → ℕ
held claiming = 1
held broken = 1
held _ = 0

-- Every permit is in the semaphore, with the loop, or with a job.
abbrev IsBalanced : Settings → Worker → Type 0
IsBalanced s w = w.permits + held w.phase + length w.jobs ≡ s.concurrency

-- The idle delay lies between the poll interval and the maximum.
abbrev IsBounded : Settings → Worker → Type 0
IsBounded s w = (s.poll_interval ≤ w.idle_backoff) × (w.idle_backoff ≤ s.max_idle_backoff)

held_at : (p q : Phase) → p ≡ q → held p ≡ held q
held_at p q e = ap held e

Step-IsBalanced : (s : Settings) (v w : Worker) → Step s v w → IsBalanced s v → IsBalanced s w
Step-IsBalanced s v w (goes_on _ p _) h = omega (arith, held_at v.phase testing p)
Step-IsBalanced s v w (stops _ p _) h = omega (arith, held_at v.phase testing p)
Step-IsBalanced s v w (acquires _ n p q) h = omega (arith, held_at v.phase acquiring p)
Step-IsBalanced s v w (takes _ now locked t ts p q) h = omega (arith, held_at v.phase claiming p)
Step-IsBalanced s v w (finds_none _ now locked ts p q) h = omega (arith, held_at v.phase claiming p)
Step-IsBalanced s v w (breaks _ p) h = omega (arith, held_at v.phase claiming p)
Step-IsBalanced s v w (wakes _ p) h = omega (arith, held_at v.phase sleeping p)
Step-IsBalanced s v w (releases _ before after t e) h =
    omega (arith, ap length e, length-append before (t ∷ after), length-append before after)
Step-IsBalanced s v w (signals _) h = h
Step-IsBalanced s v w (moves _ ts) h = h

Step-IsBounded :
    (s : Settings) (v w : Worker)
    → s.poll_interval ≤ s.max_idle_backoff
    → Step s v w
    → IsBounded s v
    → IsBounded s w
Step-IsBounded s v w k (goes_on _ p _) b = b
Step-IsBounded s v w k (stops _ p _) b = b
Step-IsBounded s v w k (acquires _ n p q) b = b
Step-IsBounded s v w k (takes _ now locked t ts p q) b = (omega arith, k)
Step-IsBounded s v w k (finds_none _ now locked ts p q) b = b
Step-IsBounded s v w k (breaks _ p) b = b
Step-IsBounded s v w k (wakes _ p) (l, u) = (ground arith, ground arith)
Step-IsBounded s v w k (releases _ before after t e) b = b
Step-IsBounded s v w k (signals _) b = b
Step-IsBounded s v w k (moves _ ts) b = b

Reaches-IsBalanced : (s : Settings) (w : Worker) → Reaches s w → IsBalanced s w
Reaches-IsBalanced s w (begins ts) = omega arith
Reaches-IsBalanced s w (steps v _ r st) = Step-IsBalanced s v w st (Reaches-IsBalanced s v r)

Reaches-IsBounded :
    (s : Settings) (w : Worker) → s.poll_interval ≤ s.max_idle_backoff → Reaches s w → IsBounded s w
Reaches-IsBounded s w k (begins ts) = (omega arith, k)
Reaches-IsBounded s w k (steps v _ r st) = Step-IsBounded s v w k st (Reaches-IsBounded s v k r)

-- If the poll interval is at most MAX_IDLE_BACKOFF, then at every state that a worker comes to,
-- the permits in the semaphore, the one that the loop holds between acquire() and the claim (or
-- lost by an error of the claim), and the unfinished jobs add up to `concurrency`, so no more jobs
-- than that ever run, and the idle delay lies between the poll interval and MAX_IDLE_BACKOFF.
pub permits-conserved :
    (s : Settings) (w : Worker)
    → s.poll_interval ≤ s.max_idle_backoff
    → Reaches s w
    → (w.permits + held w.phase + length w.jobs ≡ s.concurrency)
      × (length w.jobs ≤ s.concurrency)
      × (s.poll_interval ≤ w.idle_backoff)
      × (w.idle_backoff ≤ s.max_idle_backoff)
permits-conserved s w k r =
    let h = Reaches-IsBalanced s w r in
    let (l, u) = Reaches-IsBounded s w k r in (h, omega arith, l, u)

-- If `concurrency` is not zero, then where the loop of a worker waits for a permit and the
-- semaphore has none, a job is unfinished, and its end gives the loop the permit with which it
-- goes on to claim_task.
pub acquiring-wakes :
    (s : Settings) (w : Worker)
    → 0 < s.concurrency
    → Reaches s w
    → w.phase ≡ acquiring
    → w.permits ≡ 0
    → (v : Worker) × (u : Worker) × Step s w v × Step s v u × (u.phase ≡ claiming)
acquiring-wakes s w c r p e =
    let h = Reaches-IsBalanced s w r in
    by_jobs w.jobs refl (omega (arith, held_at w.phase acquiring p))
  where
    by_jobs :
        (l : List Task)
        → w.jobs ≡ l
        → 0 < length w.jobs
        → (v : Worker) × (u : Worker) × Step s w v × Step s v u × (u.phase ≡ claiming)
    by_jobs [] e' pos = absurd (omega (arith, ap length e'))
    by_jobs (t ∷ l) e' pos =
        let v : Worker = record w { permits = suc w.permits; jobs = l } in
        (
          v,
          record v { phase = claiming; permits = w.permits },
          releases w [] l t e',
          acquires v w.permits p refl,
          refl,
        )
