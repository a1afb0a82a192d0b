-- ===== src/Mcp.antt =====
-- mcp: the bridge that offers the daemon's sessions as tools over the Model Context Protocol.
pub mod Auth
pub mod Socket
pub mod Tools
mod Tests
