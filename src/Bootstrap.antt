-- ===== src/Bootstrap.antt =====
-- The commands `bootnode` and `gen`: a new node takes its first peer from a boot node.
pub mod Cipher
pub mod Handler
pub mod Gen
pub mod Meeting
