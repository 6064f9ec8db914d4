-- ===== src/Scheduler.antt =====
-- python/lapinq/scheduler.py.
pub mod Cron
pub mod Tick
mod Examples
