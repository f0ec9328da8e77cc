-- ===== src/Lease.antt =====
-- Human handoff control leases (src/browser/control-lease.ts).
pub mod Types
pub mod Action
pub mod Checks
pub mod Expiry
pub mod Handoff
pub mod Guards
pub mod Invariant
pub mod Trace
pub mod Authority
pub mod Tokens
pub mod Deadline
pub mod Released
pub mod Protocol
mod Examples
