-- ===== src/Discovery.antt =====
-- tincd/discovery: how nodes learn of one another.
pub mod Ssd
pub mod Client
pub mod Server
pub mod Peers
pub mod Http
