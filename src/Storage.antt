-- ===== src/Storage.antt =====
-- python/lapinq/storage.py: the task table and the operations of `Storage` on it.
pub mod Task
pub mod Enqueue
pub mod Batch
pub mod Claim
pub mod Finish
pub mod Retry
pub mod Expiry
pub mod Queries
pub mod Users
pub mod Lifecycle
pub mod Migrations
pub mod Connection
pub mod Examples
pub mod Samples
mod SetUp
