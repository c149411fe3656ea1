-- ===== src/PrivateBridge.antt =====
-- Private bridges: a shared signing key held by the members of a roster across their own stores
-- (src/private_bridge.rs). Texts are modelled by their UTF-8 bytes, and a fixed array by a list.
pub mod SortedMap
pub mod Labels
pub mod Parents
pub mod Roster
pub mod Package
pub mod Store
pub mod Summary
pub mod Delivery
pub mod Removal
pub mod Commit
pub mod Import
pub mod Coordinator
pub mod Messages
pub mod History
mod Examples
mod Tests
mod StoreTests
