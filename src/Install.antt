-- ===== src/Install.antt =====
-- The report command of internal/app/run.go.
pub mod Files
pub mod Prompt
pub mod Report
pub mod Command
mod Examples
