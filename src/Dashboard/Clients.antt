-- ===== src/Dashboard/Clients.antt =====
-- The content of the clients dashboard, scripts/build_openwrt_clients_dashboard.py.
pub mod Base
pub mod Mappings
pub mod Overview
pub mod Inventory
pub mod Traffic
pub mod Quality
pub mod Roaming
pub mod Whole
mod Tests
