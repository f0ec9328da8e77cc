-- ===== src/Targets.antt =====
-- The registry of page elements (src/browser/target-registry.ts).
pub mod Types
pub mod Refs
pub mod Reading
pub mod Semantics
pub mod Registry
pub mod History
pub mod Bounds
pub mod Lookups
pub mod Resolved
mod Examples
