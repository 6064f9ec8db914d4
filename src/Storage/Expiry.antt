-- ===== src/Storage/Expiry.antt =====
-- Storage.cleanup_expired_tasks of python/lapinq/storage.py.
pub mod Settling
use lapinq.Prelude.{ℕ, Bool, false, not, ◌&&◌, Option, none, some, ltb}
use lapinq.Prelude.Lists.{count}
use lapinq.Prelude.Int.{ℤ, pos, ltb_ℤ, shift}
use lapinq.Prelude.Rows.{update_where}
use lapinq.Storage.Task.{Task, Table, expired, is_final}

-- ttl_seconds IS NOT NULL AND ttl_seconds > 0 AND created_at + ttl_seconds < now()
abbrev pub is_overdue : ℕ → ℕ → Option ℤ → Bool
is_overdue now created_at none = false
is_overdue now created_at (some ttl) = ltb_ℤ (pos 0) ttl && ltb (shift created_at ttl) now

pub is_expired : ℕ → Task → Bool
is_expired now t = is_overdue now t.created_at t.ttl_seconds && not (is_final t.status)

abbrev pub expired_row : ℕ → Task → Task
expired_row now t = record t {
  status = expired;
  completed_at = some now;
  error = some "ttl expired";
}

-- The number of rows that expired.
unfoldable pub cleanup_expired_tasks : ℕ → Table → ℕ × Table
unfolding is_expired
cleanup_expired_tasks now ts =
    (count (is_expired now) ts, update_where (is_expired now) (expired_row now) ts)
