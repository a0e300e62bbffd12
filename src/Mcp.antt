-- ===== src/Mcp.antt =====
-- src/mcp/: the tools that a client calls.
pub mod Requests
