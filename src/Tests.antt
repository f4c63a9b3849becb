-- ===== src/Tests.antt =====
-- Runs of the model on small inputs, and the theorems at concrete values.
mod Inputs
mod Tables
mod Joining
mod Files
mod Output
mod Addresses
mod Run
mod Setup
mod Sharing
mod Accepting
mod Watching
mod Booting
mod Rounds
mod Peers
mod Process
mod Together
mod Generating
