-- ===== src/Agent.antt =====
-- The agent that runs on each server (agent).
pub mod Deltas
pub mod Nics
pub mod Network
pub mod DataCache
pub mod Connection
pub mod Disk
pub mod Docker
pub mod Requests
mod Examples
