-- ===== src/Queue.antt =====
-- The task queue in memory (src/distributed/queue-adapter.ts).
pub mod Types
pub mod Adapter
pub mod Claims
pub mod Pending
pub mod History
pub mod Fencing
pub mod Leases
pub mod Urls
mod Examples
