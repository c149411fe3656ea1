-- ===== src/Relay.antt =====
-- The relay's server-side stores (src/relay).
pub mod ApiKey
pub mod Mailbox
pub mod OrgTree
mod Tests
