-- ===== src/Core.antt =====
-- platform/controller-core: the controller's persisted state and the services that work on it.
pub mod Errors
pub mod State
pub mod Transitions
pub mod Audit
pub mod Commands
pub mod Devices
pub mod Auth
pub mod Dataset
pub mod Jobs
pub mod Events
pub mod Workflows
pub mod Network
pub mod Persistence
pub mod Sessions
pub mod Groups
pub mod Containers
pub mod Pairing
