-- ===== src/Utilization/Tests.antt =====
-- The theorems at one small fleet: a provider that serves vehicle 7 on one page, a table that is
-- empty at first, and a database that keeps every decimal as it is.
pub mod Data
mod Reads
mod Writes
mod Runs
mod Ingests
