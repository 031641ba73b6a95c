-- ===== src/Mcp.antt =====
-- adapters/mcp: the adapter that answers JSON-RPC requests of MCP clients by requests to a gateway. The
-- manifest is in `Manifest`, what the adapter sends and reads in `Post`, its methods in `Server`.
pub mod Manifest
pub mod Post
pub mod Server
