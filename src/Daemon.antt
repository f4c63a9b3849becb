-- ===== src/Daemon.antt =====
-- tincd/daemon: the managed tinc daemon and its configuration directory.
pub mod Disk
pub mod Hosts
pub mod Output
pub mod Bus
pub mod Scanner
pub mod Process
pub mod Spawning
