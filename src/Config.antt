-- ===== src/Config.antt =====
-- tincd/config: reading and writing tinc's configuration files by reflection on Go structures.
pub mod Fields
pub mod Parser
pub mod Marshal
pub mod Types
pub mod RoundTrip
