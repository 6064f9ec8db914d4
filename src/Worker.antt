-- ===== src/Worker.antt =====
-- The worker: python/lapinq/execute.py (Execute) and python/lapinq/worker.py (Process, Loop).
pub mod Execute
pub mod Process
pub mod Loop
pub mod Fleet
mod Examples
