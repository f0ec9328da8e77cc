-- ===== src/Url.antt =====
-- The policy on URLs and destinations (src/policy/url-policy.ts).
pub mod Ipv4
pub mod Ipv6
pub mod Blocks
pub mod Hosts
pub mod Policy
pub mod Resolve
pub mod Approval
pub mod History
pub mod Addresses
pub mod Metadata
pub mod Wildcards
pub mod Allowed
pub mod Mapped
pub mod Embedded
mod Examples
