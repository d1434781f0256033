-- ===== src/Server.antt =====
-- mcp_server/server.py: the settings, the middleware, the SSH runner and the tools.
pub mod Settings
pub mod Middleware
pub mod Session
pub mod Runner
pub mod Tools
pub mod Confirm
pub mod Sessions
pub mod Secrets
pub mod Replies
pub mod Outcomes
mod Examples
