-- ===== src/Collect.antt =====
-- internal/collect: the sampling of the host.
pub mod Usage
pub mod Disks
pub mod Counters
pub mod Raid
pub mod Sampler
mod Examples
