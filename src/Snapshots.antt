-- ===== src/Snapshots.antt =====
-- The history of semantic snapshots (src/browser/snapshot-history.ts).
pub mod Types
pub mod Prune
pub mod Retain
pub mod Bounds
pub mod Calls
pub mod Reads
mod Examples
