-- ===== src/Policy.antt =====
-- mcp_server/core.py: the command policy of the SSH server.
pub mod Result
pub mod Address
pub mod Validate
pub mod Inventory
pub mod Commands
pub mod Output
pub mod HostKeys
pub mod Redaction
mod Tests
mod Examples
