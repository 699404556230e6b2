-- ===== src/Backfill.antt =====
-- The control plane of historical backfills,
-- chief-of-staff/backend/app/connectors/torqueai_backfill_control.py: its errors and checks (Control), its
-- ledger (Tables), the evidence of a preview (Evidence), and the operations.
pub mod Control
pub mod Tables
pub mod Reports
pub mod Evidence
pub mod Plan
pub mod Preview
pub mod Moves
pub mod Steps
pub mod Disjoint
pub mod Quarantine
pub mod Verdicts
pub mod Previews
pub mod Sound
pub mod Retry
pub mod Lookup
pub mod Again
pub mod Repeat
mod Tests
