-- ===== src/Examples.antt =====
-- The theorems at concrete inputs.
mod Names
mod Reconcile
mod Json
mod Manifest
mod Agent
mod Upgrade
mod Config
mod JobLog
mod Fleet
mod Units
mod Cycle
mod SubIds
mod Lifecycle
mod Bulk
mod Uninstall
