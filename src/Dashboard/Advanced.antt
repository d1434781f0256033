-- ===== src/Dashboard/Advanced.antt =====
-- The content of the advanced dashboard, scripts/build_openwrt_advanced_dashboard.py.
pub mod Base
pub mod Overview
pub mod Traffic
pub mod Wifi
pub mod DpiFirst
pub mod DpiSecond
pub mod Whole
mod Tests
