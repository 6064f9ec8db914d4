-- ===== src/Storage/Claim.antt =====
-- Storage.claim_task and Storage.heartbeat of python/lapinq/storage.py.
pub mod Choice
pub mod Exclusion
use lapinq.Prelude.{
  ℕ, String, Bool, false, not, ◌&&◌, ◌||◌, Option, none, some, List, [], ◌∷◌, leb, ltb, ◌==◌,
  if◌then◌else◌, str_eq,
}
use lapinq.Prelude.Lists.{any}
use lapinq.Prelude.Int.{ltb_ℤ}
use lapinq.Prelude.Rows.{update_where}
use lapinq.Storage.Task.{Status, running, same_status, Task, Table}

-- WHERE status = ANY(statuses) AND scheduled_at <= now(), less the rows that another transaction has
-- locked (SKIP LOCKED).
unfoldable pub is_claimable : List Status → ℕ → (ℕ → Bool) → Task → Bool
is_claimable statuses now locked t =
    any (same_status t.status) statuses && (leb t.scheduled_at now && not (locked t.id))

-- ORDER BY priority DESC, created_at: `a` stands strictly before `b`.
unfoldable pub goes_before : Task → Task → Bool
goes_before a b =
    ltb_ℤ b.priority a.priority
    || (not (ltb_ℤ a.priority b.priority) && ltb a.created_at b.created_at)

-- The first row in that order that meets the test; of equals, the one inserted first.
unfoldable pub select_first : (Task → Bool) → Table → Option Task
select_first wanted [] = none
select_first wanted (t ∷ ts) =
    let rest = select_first wanted ts in
    if wanted t
    then elim rest [ none ↦ some t | some u ↦ if goes_before u t then some u else some t ]
    else rest

-- SET status = 'running', started_at = now(), worker_id = $1, last_heartbeat = now()
abbrev pub claimed : String → ℕ → Task → Task
claimed worker_id now t = record t {
  status = running;
  started_at = some now;
  worker_id = some worker_id;
  last_heartbeat = some now;
}

-- The row as it stands after the update, or None.
unfoldable pub claim_task : String → List Status → ℕ → (ℕ → Bool) → Table → Option Task × Table
unfolding select_first is_claimable
claim_task worker_id statuses now locked ts =
    elim (select_first (is_claimable statuses now locked) ts) [
      | none ↦ (none, ts)
      | some t ↦ (
        some (claimed worker_id now t),
        update_where (λ u. u.id == t.id) (claimed worker_id now) ts,
      )
    ]

abbrev pub is_worker : String → Option String → Bool
is_worker w none = false
is_worker w (some v) = str_eq v w

unfoldable pub heartbeat : String → ℕ → Table → Table
heartbeat worker_id now =
    update_where (λ t. is_worker worker_id t.worker_id && same_status t.status running)
      (λ t. record t { last_heartbeat = some now })
