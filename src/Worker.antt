-- ===== src/Worker.antt =====
-- The worker (src/distributed/worker-daemon.ts).
pub mod Settle
pub mod Attempts
mod Examples
