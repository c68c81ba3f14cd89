-- ===== src/Push.antt =====
-- internal/push: reports to the dashboards.
pub mod Rpc
pub mod Target
pub mod Update
pub mod Round
pub mod Static
pub mod Urls
pub mod Session
pub mod Virt
mod Examples
