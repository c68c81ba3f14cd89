-- ===== src/Pve.antt =====
-- internal/pve and internal/virt: the helper that observes virtual machines.
pub mod Query
pub mod History
pub mod Snapshot
pub mod Execute
pub mod Client
pub mod Collector
pub mod Guests
pub mod Config
pub mod Monitor
pub mod Process
pub mod Sample
pub mod Inventory
pub mod Memory
mod Examples
