-- ===== src/Storage/Examples.antt =====
-- A small task table, on which the theorems about python/lapinq/storage.py are applied.
use lapinq.Prelude.{
  ℕ, ◌≡◌, refl, ◌≢◌, Bool, true, false, none, some, List, [], ◌∷◌, map, arith, ◌≤◌, ◌==◌,
}
use lapinq.Prelude.Int.{ℤ, pos}
use lapinq.Prelude.Lists.{All, Distinct}
use lapinq.Prelude.Rows.{update_where}
use lapinq.Json.{arr, nil, obj, end}
use lapinq.Storage.Task.{pending, failed, Task, Table, find_task}
use lapinq.Storage.Claim.{is_claimable, claimed, claim_task}
use lapinq.Storage.Claim.Choice.{IsFirst, claim_task-IsFirst}
use lapinq.Storage.Claim.Exclusion.{ids, Call, claim_all, claim_all-Distinct}
use lapinq.Storage.Retry.{retry_backoff_seconds, recover_stale_tasks}
use lapinq.Storage.Retry.Backoff.{retry_backoff_seconds_bounds}
use lapinq.Storage.Retry.Attempts.{Round, fail_rounds, fail_rounds-attempts}
use lapinq.Storage.Retry.Recovery.{recover_stale_tasks-ignores_heartbeat, Crash}
use lapinq.Storage.Finish.{cancelled_row, cancel_task}
use lapinq.Storage.Finish.Cancel.{cancel_task-never_claimed}

-- A pending task of one attempt in three, created at the start.
abbrev pub task : ℕ → ℤ → ℕ → Task
task id priority created_at = record {
  id = id;
  queue_name = "mail";
  task_name = "send";
  module_path = "app.tasks";
  args = arr nil;
  kwargs = obj end;
  status = pending;
  result = none;
  error = none;
  attempts = 0;
  max_retries = pos 3;
  priority = priority;
  created_at = created_at;
  scheduled_at = created_at;
  started_at = none;
  completed_at = none;
  last_heartbeat = none;
  worker_id = none;
  ttl_seconds = none;
  metadata = obj end;
  progress = none;
  progress_message = none;
  retry_delay = none;
  retry_backoff = some true;
  webhook_url = none;
}

abbrev pub three : Table
three = task 1 (pos 0) 5 ∷ task 2 (pos 7) 9 ∷ task 3 (pos 7) 8 ∷ []

abbrev pub free : ℕ → Bool
free i = false

abbrev pub calls : List Call
calls = ("w", 20, free) ∷ ("v", 21, (λ i. i == 2)) ∷ ("w", 22, free) ∷ ("v", 23, free) ∷ []

abbrev pub busy : Table
busy = claimed "w" 20 (task 4 (pos 0) 5) ∷ task 5 (pos 1) 6 ∷ []

abbrev late : ℕ
late = 400_000_000

claim_order : map (λ t. t.id) (claim_all calls three) ≡ 3 ∷ 1 ∷ 2 ∷ []
unfolding claim_all claim_task lapinq.Storage.Claim.goes_before
claim_order = refl

claim_all-Distinct_example : Distinct (ids (claim_all calls three))
claim_all-Distinct_example = claim_all-Distinct calls three (omega arith)

claim_task-IsFirst_example :
    (t : Task) × (claimed "w" 20 (task 3 (pos 7) 8) ≡ claimed "w" 20 t)
    × (find_task t.id three ≡ some t)
    × (is_claimable (pending ∷ []) 20 free t ≡ true)
    × IsFirst (is_claimable (pending ∷ []) 20 free) t three
    × ((task 1 (pos 0) 5 ∷ task 2 (pos 7) 9 ∷ claimed "w" 20 (task 3 (pos 7) 8) ∷ [])
        ≡ update_where (λ u. u.id == t.id) (claimed "w" 20) three)
unfolding claim_task lapinq.Storage.Claim.goes_before
claim_task-IsFirst_example =
    claim_task-IsFirst "w" (pending ∷ []) 20 free three
      (task 1 (pos 0) 5 ∷ task 2 (pos 7) 9 ∷ claimed "w" 20 (task 3 (pos 7) 8) ∷ [])
      (claimed "w" 20 (task 3 (pos 7) 8)) (omega arith) refl

abbrev rounds : List Round
rounds =
    record { worker_id = "w"; claimed_at = 20; failed_at = 30; error = some "boom" }
    ∷ record { worker_id = "v"; claimed_at = 20_000_030; failed_at = 20_000_040; error = none }
    ∷ []

abbrev last_round : Round
last_round = record { worker_id = "w"; claimed_at = 10; failed_at = 15; error = some "boom" }

fail_rounds-attempts_example :
    (u : Task) × (find_task 1 (fail_rounds 1 (last_round ∷ rounds) three) ≡ some u)
    × (u.attempts ≡ 3)
    × (u.status ≡ failed)
fail_rounds-attempts_example =
    fail_rounds-attempts 1 3 last_round rounds three (task 1 (pos 0) 5) refl refl (omega arith)

retry_backoff_seconds_bounds_example :
    (10 ≤ retry_backoff_seconds 2)
    × (retry_backoff_seconds 2 ≤ retry_backoff_seconds 9)
    × (retry_backoff_seconds 9 ≤ 600)
    × (map retry_backoff_seconds (1 ∷ 2 ∷ 3 ∷ 4 ∷ 5 ∷ []) ≡ 10 ∷ 30 ∷ 60 ∷ 300 ∷ 600 ∷ [])
    × (retry_backoff_seconds 6 ≡ 600)
retry_backoff_seconds_bounds_example = retry_backoff_seconds_bounds 2 9 (omega arith) (omega arith)

recover_stale_tasks-ignores_heartbeat_example :
    (u : Task) × (find_task 4 (recover_stale_tasks late 300 free busy).1 ≡ some u)
    × (is_claimable (pending ∷ []) late free u ≡ true)
    × (u.attempts ≡ 1)
    × (u.last_heartbeat ≡ some 20)
recover_stale_tasks-ignores_heartbeat_example =
    recover_stale_tasks-ignores_heartbeat late 300 20 4 free busy
      (claimed "w" 20 (task 4 (pos 0) 5)) refl refl refl (omega arith) (omega arith) refl

abbrev deaths : List Crash
deaths =
    record { worker_id = "w"; claimed_at = 20; recovered_at = 300_000_021 }
    ∷ record { worker_id = "v"; claimed_at = 300_000_030; recovered_at = 600_000_031 }
    ∷ []

abbrev pub short_lived : Task
short_lived = record (claimed "w" 20 (task 6 (pos 0) 5)) { ttl_seconds = some (pos 50) }

cancel_task-never_claimed_example :
    (t : Task) × (find_task 5 busy ≡ some t)
    × (find_task 5 (cancel_task 30 5 busy).1 ≡ some (cancelled_row 30 t))
    × All (λ k. k ≢ 5) (ids (claim_all calls (cancel_task 30 5 busy).1))
unfolding cancel_task
cancel_task-never_claimed_example = cancel_task-never_claimed 30 5 busy calls (omega arith) refl

abbrev pub given_up : Task
given_up = record (task 8 (pos 0) 5) { status = failed; attempts = 3; error = some "boom" }
