-- ===== src/Auth.antt =====
-- The authentication of tenants (src/auth/tenant-auth.ts).
pub mod Tenants
pub mod Configured
mod Examples
pub mod Base32
pub mod Secrets
