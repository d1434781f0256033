-- ===== src/Dashboard/Topology.antt =====
-- The content of the topology dashboard, scripts/build_openwrt_topology_dashboard.py.
pub mod Base
pub mod Overview
pub mod Graph
pub mod Quality
pub mod Whole
mod Tests
