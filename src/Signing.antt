-- ===== src/Signing.antt =====
-- Private-bridge signature artifacts (src/signing.rs). Texts are modelled by their UTF-8 bytes, and
-- a fixed array by a list whose length the reader fixes. The Ed25519 operations and SHA-256 are the
-- parameter `Ed25519`.
mod Utf8
pub mod BigEndian
pub mod Reader
pub mod Artifact
pub mod RoundTrip
pub mod Canonical
pub mod Verify
pub mod Binding
mod Tests
unfoldable pub use Utf8.{is_utf8}
