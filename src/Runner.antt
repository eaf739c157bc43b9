-- ===== src/Runner.antt =====
-- internal/runner.
pub mod Versions
pub mod Names
pub mod Agent
pub mod Units
pub mod Job
pub mod SubIds
