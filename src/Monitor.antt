-- ===== src/Monitor.antt =====
-- The parts of domain/monitor: the array of nodes, the index of public nodes, the
-- service, and the client of other nodes' services.
pub mod Nodes
pub mod Index
pub mod Service
pub mod Client
