-- ===== src/Runner/Units.antt =====
-- The systemd units that internal/runner/orchestrator.go writes, and what internal/runner/inspect.go makes
-- of them when it reads them back.
pub mod Templates
pub mod Render
pub mod Marker
pub mod Converge
pub mod Lane
pub mod Trim
