-- ===== src/Team.antt =====
-- The access store of a team (src/team/access-store.ts).
pub mod Store
pub mod Withdrawn
pub mod Suspended
mod Examples
