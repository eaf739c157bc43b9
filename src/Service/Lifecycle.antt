-- ===== src/Service/Lifecycle.antt =====
-- The operations of internal/service that create, destroy and change runners, lanes and groups.
pub mod Model
pub mod Access
pub mod Runners
pub mod Lanes
pub mod Groups
pub mod Rules
pub mod Quiet
pub mod Commands
pub mod Allowed
pub mod Safety
pub mod Additive
