-- ===== src/Service.antt =====
-- internal/service.
pub mod UnitNames
pub mod Manifest
pub mod Drift
pub mod Reconcile
pub mod Upgrade
pub mod Snapshot
pub mod Slots
pub mod JitFile
pub mod Cycle
pub mod Lifecycle
pub mod Bulk
pub mod Uninstall
