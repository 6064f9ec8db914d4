-- ===== src/Storage/Retry/Recovery.antt =====
-- The stale-task reaper, `recover_stale_tasks`.
use lapinq.Prelude.{
  ℕ, ◌+◌, ◌*◌, ◌≤◌, ◌<◌, String, ◌≡◌, refl, Bool, true, false, not, ◌&&◌, some, List, [], ◌∷◌,
  arith,
}
use lapinq.Prelude.Lists.{All, length}
use lapinq.Prelude.Rows.{find-update_where, find-key}
use lapinq.Storage.Task.{pending, running, Task, Table, find_task, second}
use lapinq.Storage.Claim.{is_claimable}
use lapinq.Storage.Retry.{is_stale, recovered_row, recover_stale_tasks}
use lapinq.Storage.Retry.Attempts.{take_task, find-take_task}

pub find-recover_stale_tasks :
    (now seconds started task_id : ℕ) (locked : ℕ → Bool) (ts : Table) (t : Task)
    → find_task task_id ts ≡ some t
    → t.status ≡ running
    → t.started_at ≡ some started
    → started + seconds * second < now
    → locked task_id ≡ false
    → find_task task_id (recover_stale_tasks now seconds locked ts).1 ≡ some (recovered_row t)
unfolding recover_stale_tasks
find-recover_stale_tasks now seconds started task_id locked ts t e run at old free =
    rw
      (
        find-update_where (λ u. u.id) task_id (λ u. is_stale now seconds u && not (locked u.id))
            recovered_row ts (λ u. refl),
        e,
      )
      (ground (arith, find-key (λ u. u.id) task_id ts t e))

-- A task that has been running for longer than the limit, that was due and whose row is not
-- locked, is claimable again at once, whatever its last heartbeat says and however many attempts
-- it has had: neither `last_heartbeat` nor `max_retries` is looked at.
pub recover_stale_tasks-ignores_heartbeat :
    (now seconds started task_id : ℕ) (locked : ℕ → Bool) (ts : Table) (t : Task)
    → find_task task_id ts ≡ some t
    → t.status ≡ running
    → t.started_at ≡ some started
    → started + seconds * second < now
    → t.scheduled_at ≤ now
    → locked task_id ≡ false
    → (u : Task) × (find_task task_id (recover_stale_tasks now seconds locked ts).1 ≡ some u)
      × (is_claimable (pending ∷ []) now locked u ≡ true)
      × (u.attempts ≡ t.attempts + 1)
      × (u.last_heartbeat ≡ t.last_heartbeat)
unfolding is_claimable
recover_stale_tasks-ignores_heartbeat now seconds started task_id locked ts t e run at old due
      free =
    (
      recovered_row t,
      find-recover_stale_tasks now seconds started task_id locked ts t e run at old free,
      ground (arith, find-key (λ u. u.id) task_id ts t e),
      refl,
      refl,
    )

-- One run of a task whose worker dies: it is claimed, and recovered after the limit.
pub record Crash : Type 0 where
  pub worker_id : String
  pub claimed_at : ℕ
  pub recovered_at : ℕ

abbrev crash : ℕ → ℕ → Crash → Table → Table
crash seconds task_id c ts =
    (recover_stale_tasks c.recovered_at seconds (λ _. false)
      (take_task c.worker_id c.claimed_at task_id ts)).1

abbrev pub crashes : ℕ → ℕ → List Crash → Table → Table
crashes seconds task_id [] ts = ts
crashes seconds task_id (c ∷ cs) ts = crashes seconds task_id cs (crash seconds task_id c ts)

-- A task whose every run ends in a crash is pending after each of them, for any number of crashes
-- and any `max_retries`: its attempts grow by one with each and it never becomes failed.
pub crashes-unbounded :
    (seconds task_id : ℕ) (cs : List Crash) (ts : Table) (t : Task)
    → find_task task_id ts ≡ some t
    → t.status ≡ pending
    → All (λ c. c.claimed_at + seconds * second < c.recovered_at) cs
    → (u : Task) × (find_task task_id (crashes seconds task_id cs ts) ≡ some u)
      × (u.status ≡ pending)
      × (u.attempts ≡ t.attempts + length cs)
      × (u.max_retries ≡ t.max_retries)
crashes-unbounded seconds task_id [] ts t e p h = (t, e, p, omega arith, refl)
crashes-unbounded seconds task_id (c ∷ cs) ts t e p (old, h) =
    let next =
      find-recover_stale_tasks c.recovered_at seconds c.claimed_at task_id (λ _. false)
        (take_task c.worker_id c.claimed_at task_id ts) _
        (find-take_task c.worker_id c.claimed_at task_id ts t e) refl refl old refl in
    let (u, found, s, n, m) = crashes-unbounded seconds task_id cs _ _ next refl h in
    (u, found, s, omega (arith, n), m)
