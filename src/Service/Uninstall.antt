-- ===== src/Service/Uninstall.antt =====
-- internal/service/uninstall.go.
pub mod Model
pub mod Targets
pub mod Plan
pub mod Gate
pub mod Teardown
pub mod Run
pub mod Own
pub mod Scope
pub mod Safety
pub mod Drained
