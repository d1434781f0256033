-- ===== src/Dashboard/Panels.antt =====
-- The panel builders of scripts/build_openwrt_operations_dashboard.py.
pub mod Base
pub mod Values
pub mod Series
pub mod Tables
