-- ===== src/Scheduler.antt =====
-- The master scheduler (src/distributed/scheduler.ts).
pub mod Tasks
pub mod Submit
pub mod Control
pub mod Outcomes
pub mod Accepted
pub mod Lifecycle
mod Examples
