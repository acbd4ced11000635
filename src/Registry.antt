-- ===== src/Registry.antt =====
-- backend/src: what the registry does with the package files that are sent to it.
pub mod Versions
pub mod Accepted
pub mod Records
pub mod Permissions
pub mod Granted
pub mod Calls
pub mod Directives
