-- ===== src/Dispatch.antt =====
-- The ingestion of TorqueAI's dispatches, chief-of-staff/backend/app/connectors: one request (Connector),
-- the reading of its records (Normalize), the rows that are kept (Tables, Persist), a whole run (Fetch, Ingest).
pub mod Call
pub mod Request
pub mod Connector
pub mod Normalize
pub mod Tables
pub mod Persist
pub mod Fetch
pub mod Ingest
pub mod Lookup
pub mod Rows
pub mod Tally
pub mod Effects
pub mod Fetches
pub mod Recorded
pub mod Outcomes
pub mod Atomic
pub mod Served
pub mod Succeeds
pub mod Pages
pub mod Fields
pub mod Distinct
pub mod Twice
pub mod Slots
pub mod Schedule
pub mod Claims
pub mod Service
pub mod Guarded
pub mod Once
mod Tests
