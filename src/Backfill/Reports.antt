-- ===== src/Backfill/Reports.antt =====
-- The report of a preview and the evidence that is kept of it, as `_preview_evidence` of
-- chief-of-staff/backend/app/connectors/torqueai_backfill_control.py reads and writes them.
use polaris_lab.Base.{ℕ, String, Bool, Option, List}
use polaris_lab.Base.Int.{ℤ}
use polaris_lab.Backfill.Tables.{Interval, Classification}

-- The seven counts of a report.
pub record Counts (N : Type 0) : Type 0 where
  pub provider_records_received : N
  pub validated_records : N
  pub would_inserts : N
  pub would_updates : N
  pub unchanged_records : N
  pub identity_conflicts : N
  pub missing_usable_lane_stops : N

pub record Page : Type 0 where
  pub page : ℕ
  pub records : ℕ
  pub total_count : ℕ
  pub items_per_page : ℕ

pub record Pagination : Type 0 where
  pub page_size : ℕ
  pub pages_fetched : ℕ
  pub provider_total_count : ℕ
  pub pages : List Page

pub record ShipDates : Type 0 where
  pub minimum : Option String
  pub maximum : Option String
  pub outside_requested_window : ℕ
  pub missing_or_invalid : ℕ

pub record ReportedIdentity : Type 0 where
  pub provider_load_number : String
  pub provider_order_number : String
  pub classification : Classification
  pub conflicting_order_numbers : List String

-- The five flags that say that nothing was written and nothing leaked.
pub record Flags : Type 0 where
  pub database_writes : Bool
  pub provider_writes : Bool
  pub checkpoint_modified : Bool
  pub claims_modified : Bool
  pub raw_provider_payload_returned : Bool

pub record Report : Type 0 where
  pub request : Interval
  pub mode : String
  pub provider : String
  pub flags : Flags
  pub status : String
  pub counts : Counts ℤ
  pub pagination : Pagination
  pub returned_ship_dates : ShipDates
  pub validation_failures : List String
  pub identities : List ReportedIdentity

pub record Evidence : Type 0 where
  pub request : Interval
  pub status : String
  pub counts : Counts ℕ
  pub pagination : Pagination
  pub returned_ship_dates : ShipDates
  pub validation_failures : List String
  pub identities : List ReportedIdentity
