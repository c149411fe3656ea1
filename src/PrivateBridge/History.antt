-- ===== src/PrivateBridge/History.antt =====
-- How the stored bridges change under the operations (src/private_bridge.rs).
pub mod Rows
pub mod Later
pub mod Planned
pub mod Imported
pub mod Dropped
pub mod Runs
pub mod Destroyed
pub mod Authorised
pub mod Stale
