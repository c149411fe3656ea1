-- ===== src/PrivateBridge/Package.antt =====
-- Delivery packages, `.kqpb` files: an outer header that names the recipient's key, and a sealed
-- letter (src/private_bridge.rs).
pub mod Maps
pub mod Auth
pub mod Signed
pub mod Letter
pub mod Envelope
pub mod RoundTrip
pub mod Sealed
