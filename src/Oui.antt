-- ===== src/Oui.antt =====
-- scripts/build_oui_table.py: the vendor table that the router looks MAC addresses up in.
pub mod Rules
pub mod Build
pub mod Render
pub mod Index
pub mod Vendors
pub mod Displays
pub mod Records
pub mod Hidden
pub mod Order
pub mod Sorted
pub mod Lookup
mod Tests
