-- ===== src/Run.antt =====
-- cmd/tinc-boot/run: a node's start.
pub mod Clock
pub mod Setup
pub mod Start
pub mod Together
