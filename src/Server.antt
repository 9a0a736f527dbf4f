-- ===== src/Server.antt =====
-- The server of MCP sessions (mcpcompat/server).
pub mod Sdk
mod Small
pub mod Objects
pub mod Overlays
pub mod Sessions
pub mod Http
pub mod Messages
