-- ===== src/Alerts.antt =====
-- The hub's alerts (internal/alerts).
pub mod Cache
pub mod Status
pub mod System
mod Examples
