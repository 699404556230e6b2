-- ===== src/Utilization/Production/Ledger.antt =====
-- The bookkeeping of chief-of-staff/backend/app/motive/vehicle_utilization_production_ingestion.py: the
-- checkpoint of an organization and the history of its runs (MotiveSyncCheckpoint and MotiveSyncHistory
-- of chief-of-staff/backend/app/models/motive.py), and the one transaction that records a run. Times are
-- numbers, `run_id` is left out, and so are the parts of `resource_counts` that never change. The
-- session holds no pending row of these tables when a run begins; the rows that a refused transaction
-- adds are dropped.
use polaris_lab.Base.{
  find_first, ℕ, String, Bool, true, false, ◌&&◌, Option, none, some, List, [], ◌∷◌, str_eq,
}
use polaris_lab.Utilization.Rollup.{Date}

abbrev pub resource : String
resource = "vehicle_utilization"

abbrev pub run_mode : String
run_mode = "production_recent_window_ingestion"

abbrev pub production_time_zone : String
production_time_zone = "America/Chicago"

abbrev pub imperial_value : String
imperial_value = "imperial"

abbrev pub production_fuel_unit : String
production_fuel_unit = "gallons"

abbrev pub checkpoint_resource : String
checkpoint_resource = "vehicle_utilization"

abbrev pub lock_resource : String
lock_resource = "vehicle_utilization_production_lock"

-- The JSON object `last_successful_position`, by the keys that the module uses.
pub record Position : Type 0 where
  pub completed_through : Option Date
  pub request_timezone : Option String
  pub unit_request_mode : Option String
  pub fuel_unit : Option String

abbrev pub empty_position : Position
empty_position = record {
  completed_through = none;
  request_timezone = none;
  unit_request_mode = none;
  fuel_unit = none;
}

-- In `last_successful_position`, `none` stands for a JSON value that is no object.
pub record Checkpoint : Type 0 where
  pub organization_id : String
  pub organization_slug : String
  pub provider_resource : String
  pub updated_after_watermark : Option Date
  pub last_successful_position : Option Position
  pub checkpoint_status : String
  pub last_successful_sync_at : Option ℕ

-- What a history row keeps of a checkpoint.
pub record Snapshot : Type 0 where
  pub status : String
  pub completed_through : Option Date
  pub request_timezone : Option String
  pub unit_request_mode : Option String

-- `FailedProductionWindow`; the window has the same day on both ends, or two empty texts.
pub record FailedWindow : Type 0 where
  pub window : Option Date
  pub error_code : String

pub data RunStatus : Type 0 where
  success partial_success failed : RunStatus

-- The counters of a run.
pub record Tally : Type 0 where
  pub windows_completed : ℕ
  pub provider_calls_attempted : ℕ
  pub provider_calls_completed : ℕ
  pub rollups_returned : ℕ
  pub missing_requested_vehicle_count : ℕ
  pub records_inserted : ℕ
  pub records_unchanged : ℕ
  pub records_updated : ℕ
  pub reconciled_fields_count : ℕ

-- The arguments of `_persist_history_and_checkpoint` that describe the run.
pub record Report : Type 0 where
  pub result_status : RunStatus
  pub selected_vehicle_count : ℕ
  pub windows_attempted : ℕ
  pub windows_failed : ℕ
  pub tally : Tally
  pub failed_units : List FailedWindow

pub record History : Type 0 where
  pub id : ℕ
  pub organization_id : String
  pub organization_slug : String
  pub provider : String
  pub provider_resource : String
  pub mode : String
  pub status : String
  pub started_at : ℕ
  pub completed_at : ℕ
  pub records_read : ℕ
  pub records_written : ℕ
  pub error_code : Option String
  pub error_message_sanitized : Option String
  pub checkpoint_before : Snapshot
  pub checkpoint_after : Snapshot
  pub resource_counts : Report
  pub checkpoint_advanced : Bool

-- The two tables, as committed.
pub record Tables : Type 0 where
  pub history : List History
  pub checkpoints : List Checkpoint

-- A place where the database or its session may refuse.
pub data Access : Type 0 where
  open_session read_anchor write_anchor lock_rollback lock_close : Access
  read_checkpoint read_vehicles read_target save read_history : Access

unfoldable pub is_checkpoint : String → String → Checkpoint → Bool
is_checkpoint organization_id provider_resource c =
    str_eq c.organization_id organization_id && str_eq c.provider_resource provider_resource

-- The row of an organization and a resource, which the table's unique constraint makes the only one.
abbrev pub checkpoint_of : String → String → List Checkpoint → Option Checkpoint
checkpoint_of organization_id provider_resource checkpoints =
    find_first (is_checkpoint organization_id provider_resource) checkpoints

abbrev position_of : Option Position → Position
position_of none = empty_position
position_of (some position) = position

abbrev snapshot_of : Option Checkpoint → Snapshot
snapshot_of none = record {
  status = "not_started";
  completed_through = none;
  request_timezone = none;
  unit_request_mode = none;
}
snapshot_of (some c) =
    let position = position_of c.last_successful_position in
    record {
      status = c.checkpoint_status;
      completed_through = position.completed_through;
      request_timezone = position.request_timezone;
      unit_request_mode = position.unit_request_mode;
    }

-- `_checkpoint_snapshot`
unfoldable pub checkpoint_snapshot : String → Tables → Snapshot
checkpoint_snapshot organization_id tables =
    snapshot_of (checkpoint_of organization_id checkpoint_resource tables.checkpoints)

abbrev pub is_success : RunStatus → Bool
is_success success = true
is_success _ = false

abbrev pub history_status : RunStatus → String
history_status success = "success"
history_status partial_success = "partial"
history_status failed = "failed"

abbrev pub first_error : List FailedWindow → Option String
first_error [] = none
first_error (f ∷ failed_units) = some f.error_code

abbrev pub message_of : RunStatus → Option String
message_of success = none
message_of _ = some "One or more bounded vehicle-utilization production windows failed."

abbrev pub success_snapshot : Date → Snapshot
success_snapshot day = record {
  status = "success";
  completed_through = some day;
  request_timezone = some production_time_zone;
  unit_request_mode = some imperial_value;
}
