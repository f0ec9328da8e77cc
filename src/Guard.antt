-- ===== src/Guard.antt =====
-- The process-wide guard of the MCP server (src/mcp/runtime-guard.ts).
pub mod Calls
pub mod Rate
pub mod Metrics
mod Examples
