-- ===== src/Storage/SetUp.antt =====
-- Sample runs of the set-up of the database, and a batch against single calls.
use lapinq.Prelude.{ℕ, zero, suc, ◌+◌, ◌*◌, ◌≡◌, refl, false, none, some, List, [], ◌∷◌, arith}
use lapinq.Prelude.Int.{pos}
use lapinq.Json.{arr, nil, obj, end}
use lapinq.Storage.Connection.{Attempt, no_pool, no_set_up, ready, create, create_from}
use lapinq.Storage.Connection.Attempts.{
  first_ready, opened, closed, slept, kept, failures, create-ends,
}
use lapinq.Storage.Migrations.{Database, apply_migrations, apply_from}
use lapinq.Storage.Migrations.Resuming.{apply_migrations-resumes}
use lapinq.Storage.Enqueue.{Request}
use lapinq.Storage.Batch.{enqueue_batch}
use lapinq.Storage.Batch.OneByOne.{as_items, enqueue_each, enqueue_batch-enqueue_each}
use lapinq.Storage.Examples.{three}

-- The database is up at the third attempt.
abbrev late : ℕ → Attempt
late zero = no_pool
late (suc zero) = no_set_up
late n = ready

third : (create 5 late).1 ≡ some 2
unfolding create create_from
third = refl

create-ends_example :
    ((create 5 late).1 ≡ first_ready 5 late 0)
    × (opened (create 5 late).0 ≡ closed (create 5 late).0 + kept (first_ready 5 late 0))
    × (slept (create 5 late).0
        ≡ failures 5 (first_ready 5 late 0) * (failures 5 (first_ready 5 late 0) + 1))
create-ends_example = create-ends 5 late (omega arith)

-- A database from before the migrations.
abbrev old : Database
old = record {
  schema = record { columns = "id" ∷ "priority" ∷ []; status_check = none; users = false };
  versions = none;
}

numbered : (apply_migrations 12 old).versions ≡ some (0 ∷ 1 ∷ 2 ∷ 3 ∷ 4 ∷ 5 ∷ [])
unfolding apply_migrations apply_from
numbered = refl

-- The connection is lost after the second migration, before its version is recorded.
apply_migrations-resumes_example :
    apply_migrations 12 (apply_migrations 5 old) ≡ apply_migrations 12 old
apply_migrations-resumes_example = apply_migrations-resumes 5 12 old (omega arith)

abbrev request : Request
request = record {
  task_name = "send";
  queue_name = "mail";
  module_path = "app.tasks";
  args = arr nil;
  kwargs = obj end;
  scheduled_at = none;
  max_retries = pos 3;
  priority = pos 0;
  ttl_seconds = none;
  metadata = obj end;
  retry_delay = none;
  retry_backoff = none;
  webhook_url = none;
}

abbrev requests : List (ℕ × ℕ × Request)
requests =
    (11, 50, request)
    ∷ (12, 51, record request { ttl_seconds = some (pos 0) })
    ∷ (13, 52, request)
    ∷ []

enqueue_batch-enqueue_each_example :
    enqueue_batch (as_items requests) three ≡ enqueue_each requests three
enqueue_batch-enqueue_each_example = enqueue_batch-enqueue_each requests three
