-- ===== src/Storage/Migrations.antt =====
-- _apply_migrations of python/lapinq/storage.py with MIGRATIONS, on what the migrations may change of
-- the database. Each statement is atomic, and the connection may be lost between two of them.
pub mod Turns
pub mod Resuming
use lapinq.Prelude.{
  ℕ, zero, suc, ◌+◌, ◌*◌, String, Bool, true, false, ◌||◌, Option, none, some, List, [], ◌∷◌, ◌++◌,
  ltb, leb, ◌==◌, str_eq, if◌then◌else◌,
}
use lapinq.Prelude.Lists.{any, length}
use lapinq.Storage.Task.{Status, pending, running, completed, failed, cancelled, expired}

-- The columns of lapinq_tasks, its check on the status, and whether lapinq_users is there.
pub record Schema : Type 0 where
  pub columns : List String
  pub status_check : Option (List Status)
  pub users : Bool

-- `versions` are the rows of lapinq_schema_version, if it is there.
pub record Database : Type 0 where
  pub schema : Schema
  pub versions : Option (List ℕ)

-- ALTER TABLE ... ADD COLUMN IF NOT EXISTS; DROP CONSTRAINT IF EXISTS with ADD CONSTRAINT;
-- CREATE TABLE IF NOT EXISTS lapinq_users
pub data Migration : Type 0 where
  add_columns : List String → Migration
  set_check : List Status → Migration
  create_users : Migration

abbrev pub migrations : List Migration
migrations =
    add_columns ("ttl_seconds" ∷ "priority" ∷ "last_heartbeat" ∷ [])
    ∷ set_check (pending ∷ running ∷ completed ∷ failed ∷ cancelled ∷ [])
    ∷ set_check (pending ∷ running ∷ completed ∷ failed ∷ cancelled ∷ expired ∷ [])
    ∷ add_columns (
        "metadata" ∷ "progress" ∷ "progress_message" ∷ "retry_delay" ∷ "retry_backoff"
        ∷ "webhook_url" ∷ [])
    ∷ create_users
    ∷ []

abbrev pub add_column : String → List String → List String
add_column name columns = if any (str_eq name) columns then columns else columns ++ name ∷ []

abbrev pub add_all : List String → List String → List String
add_all [] columns = columns
add_all (name ∷ names) columns = add_all names (add_column name columns)

abbrev pub migrated : Migration → Schema → Schema
migrated (add_columns names) s = record s { columns = add_all names s.columns }
migrated (set_check statuses) s = record s { status_check = some statuses }
migrated create_users s = record s { users = true }

-- await conn.execute(migration_sql)
abbrev pub execute : Migration → Database → Database
execute m db = record db { schema = migrated m db.schema }

-- CREATE TABLE IF NOT EXISTS lapinq_schema_version
abbrev pub rows_of : Option (List ℕ) → List ℕ
rows_of none = []
rows_of (some rows) = rows

abbrev pub create_versions : Database → Database
create_versions db = record db { versions = some (rows_of db.versions) }

-- COALESCE(MAX(version), 0)
abbrev pub greatest : List ℕ → ℕ
greatest [] = 0
greatest (v ∷ vs) = let rest = greatest vs in if ltb rest v then v else rest

abbrev pub current : Database → ℕ
current db = greatest (rows_of db.versions)

-- INSERT ... ON CONFLICT DO NOTHING
abbrev pub add_version : ℕ → List ℕ → List ℕ
add_version v rows = if any (λ w. w == v) rows then rows else rows ++ v ∷ []

abbrev pub mark_version : ℕ → Database → Database
mark_version v db = record db { versions = some (add_version v (rows_of db.versions)) }

-- The loop from version `n` on, where `from` is the version that was read before it. At most `left`
-- statements reach the database.
unfoldable pub apply_from : ℕ → ℕ → ℕ → List Migration → Database → Database
apply_from left from n [] db = db
apply_from zero from n (m ∷ ms) db = db
apply_from (suc zero) from n (m ∷ ms) db =
    let skipped = apply_from 1 from (suc n) ms db in if ltb from n then execute m db else skipped
apply_from (suc (suc left)) from n (m ∷ ms) db =
    let skipped = apply_from (suc (suc left)) from (suc n) ms db in
    let done = apply_from left from (suc n) ms (mark_version n (execute m db)) in
    if ltb from n then done else skipped

-- The statements before the loop.
abbrev pub prepared : Database → Database
prepared db =
    let made = create_versions db in if current made == 0 then mark_version 0 made else made

unfoldable pub apply_migrations : ℕ → Database → Database
unfolding apply_from
apply_migrations zero db = db
apply_migrations (suc zero) db = create_versions db
apply_migrations (suc (suc left)) db =
    apply_from left (current (create_versions db)) 1 migrations (prepared db)
