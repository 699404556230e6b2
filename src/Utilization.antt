-- ===== src/Utilization.antt =====
-- Motive vehicle utilization, from the provider's pages to the durable rows.
pub mod UnitPolicy
pub mod Rollup
pub mod Parser
pub mod Http
pub mod Metadata
pub mod Pages
pub mod Writer
pub mod Reconciliation
pub mod Production
mod Tests
