-- ===== src/Dashboard/Operations.antt =====
-- The content of the operations dashboard, scripts/build_openwrt_operations_dashboard.py.
pub mod ClientsFirst
pub mod ClientsSecond
pub mod Dns
pub mod HealthFirst
pub mod HealthSecond
pub mod HealthThird
pub mod Introduction
pub mod Lan
pub mod LogsFirst
pub mod LogsSecond
pub mod OptionalFirst
pub mod OptionalSecond
pub mod Optionals
pub mod Overview
pub mod Rates
pub mod Wan
pub mod Whole
pub mod Wifi
mod Tests
