-- ===== src/KeyTree.antt =====
-- Recursive key splitting (src/key_tree.rs).
pub mod Spec
pub mod Arena
pub mod Bridges
pub mod Public
pub mod Visible
mod Tests
mod LinkTests
