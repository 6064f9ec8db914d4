-- ===== src/Server.antt =====
-- python/lapinq/server.py: the middleware and the handlers.
pub mod RateLimit
pub mod Remaining
pub mod Page
pub mod Socket
pub mod Session
pub mod Enqueueing
pub mod Handlers
pub mod Batching
pub mod Listing
pub mod Administration
pub mod Login
pub mod Metrics
mod Examples
