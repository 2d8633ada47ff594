-- ===== src/Inventory.antt =====
-- app/collector/windows_inventory.py: what is read of an explicitly configured, running terminal.
pub mod Caption
pub mod Processes
pub mod Reports
pub mod Servers
mod Examples
