-- ===== src/Records.antt =====
-- The hub's records of metrics (internal/records): longer records, and the deletion of old ones.
pub mod Tables
pub mod Deletion
pub mod Longer
pub mod Averages
mod Examples
pub mod Stats
pub mod Sums
