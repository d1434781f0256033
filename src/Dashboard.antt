-- ===== src/Dashboard.antt =====
-- The dashboard generators under scripts/.
pub mod Json
pub mod Queries
pub mod Styles
pub mod Panels
pub mod Assemble
pub mod Wifi
pub mod Operations
pub mod Advanced
pub mod Clients
pub mod Topology
pub mod Builder
pub mod Dumps
pub mod Walk
pub mod Validate
mod Tests
