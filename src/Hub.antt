-- ===== src/Hub.antt =====
-- The hub's side of the connection to an agent (internal/hub).
pub mod Requests
pub mod Realtime
pub mod Systems
pub mod Transport
pub mod Connect
