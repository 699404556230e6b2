-- ===== src/Dispatch/Slots.antt =====
-- The slots, the settings and the results of chief-of-staff/backend/app/connectors/torqueai_scheduler.py. The
-- text of a slot is the number of its hour since 1970.
use polaris_lab.Base.{
  find_first, any_of, ℕ, ◌+◌, ◌-◌, ◌/◌, String, Bool, true, false, ◌&&◌, ◌||◌, Option, none, some,
  List, leb, ◌==◌, str_eq, if◌then◌else◌,
}
use polaris_lab.Base.Int.{pos}
use polaris_lab.Python.Value.{Value, int}
use polaris_lab.Python.Text.{is_empty}
use polaris_lab.Utilization.Reconciliation.Schedule.{is_lower_of}
use polaris_lab.Backfill.Tables.{Organization}
use polaris_lab.Dispatch.Call.{Fault}
use polaris_lab.Dispatch.Request.{setting}
use polaris_lab.Dispatch.Tables.{SyncRun}
use polaris_lab.Dispatch.Persist.{RunCounts}

-- What ends a trigger early: TorqueAIScheduledSyncError with its code, or an exception of the ingestion that
-- no handler names.
pub data Trouble : Type 0 where
  sync_error : String → Trouble
  escaped : Fault → Trouble

pub data Sync {ℓ} (T : Type ℓ) : Type ℓ where
  stopped : Trouble → Sync T
  synced : T → Sync T

-- `ScheduledTorqueAISyncResult`; its six counts are those of the ingestion, if there was one.
pub record ScheduledResult : Type 0 where
  pub status : String
  pub trigger_slot : ℕ
  pub date_from : ℕ
  pub date_to : ℕ
  pub dispatch_claimed : Bool
  pub scheduler_enabled : Bool
  pub counts : Option RunCounts
  pub error_code : Option String
  pub tenant_scope_validated : Bool

-- The argument of a trigger, the environment variables that it reads, the id that is drawn for its run, and
-- what the clock says along the way.
pub record Trigger : Type 0 where
  pub timestamp : Value
  pub enabled : Option String
  pub scheduled_slug : Option String
  pub connector_slug : Option String
  pub drawn_run_id : String
  pub started_at : ℕ
  pub observed_at : ℕ
  pub completed_at : ℕ
  pub failed_at : ℕ

pub record SlotWindow : Type 0 where
  pub slot : ℕ
  pub first_day : ℕ
  pub last_day : ℕ

-- `scheduled_sync_enabled`, by the value of the environment variable
unfoldable pub scheduled_sync_enabled : Option String → Bool
scheduled_sync_enabled value =
    let s = setting value in
    is_lower_of s "1" || is_lower_of s "true" || is_lower_of s "yes" || is_lower_of s "on"

-- From here on `datetime.fromtimestamp` raises: the year 10000.
abbrev pub timestamp_bound : ℕ
timestamp_bound = 253402300800

-- The ordinal of 1970-01-01.
abbrev epoch_day : ℕ
epoch_day = 719163

abbrev pub invalid_timestamp : Trouble
invalid_timestamp = sync_error "invalid_trigger_timestamp"

-- `_slot_and_window`
unfoldable pub slot_and_window : Value → Sync SlotWindow
slot_and_window (int (pos t)) =
    if leb timestamp_bound t
    then stopped invalid_timestamp
    else synced (record {
      slot = t / 3600;
      first_day = epoch_day + t / 86400 - 6;
      last_day = epoch_day + t / 86400;
    })
slot_and_window _ = stopped invalid_timestamp

-- The query for an active organization by its slug, which is unique.
abbrev pub find_active : String → List Organization → Option Organization
find_active slug organizations =
    find_first (λ o. str_eq o.slug slug && str_eq o.status "active") organizations

-- `validate_connector_organization_scope`
abbrev pub validate_scope : Option String → String → Sync (Unit {0})
validate_scope configured slug =
    if is_empty (setting configured)
    then stopped (sync_error "organization_not_configured")
    else if str_eq (setting configured) slug
    then synced tt
    else stopped (sync_error "organization_scope_mismatch")

abbrev has_slot_number : ℕ → Option ℕ → Bool
has_slot_number slot none = false
has_slot_number slot (some n) = n == slot

abbrev pub is_of_slot : String → ℕ → SyncRun → Bool
is_of_slot organization_id slot r =
    str_eq r.organization_id organization_id && has_slot_number slot r.trigger_slot

-- The query for the run of a slot.
abbrev pub has_slot : String → ℕ → List SyncRun → Bool
has_slot organization_id slot runs = any_of (is_of_slot organization_id slot) runs

abbrev pub has_run_id : String → List SyncRun → Bool
has_run_id run_id runs = any_of (λ r. str_eq r.run_id run_id) runs

abbrev sync_result : SlotWindow → String → Bool → Bool → ScheduledResult
sync_result w status is_claimed is_enabled = record {
  status = status;
  trigger_slot = w.slot;
  date_from = w.first_day;
  date_to = w.last_day;
  dispatch_claimed = is_claimed;
  scheduler_enabled = is_enabled;
  counts = none;
  error_code = none;
  tenant_scope_validated = is_enabled;
}

abbrev pub disabled_result : SlotWindow → ScheduledResult
disabled_result w = record (sync_result w "disabled" false false) {
  error_code = some "scheduler_disabled";
}

abbrev pub already_claimed_result : SlotWindow → ScheduledResult
already_claimed_result w = sync_result w "already_claimed" false true

abbrev pub failed_result : SlotWindow → String → ScheduledResult
failed_result w code = record (sync_result w "failed" true true) { error_code = some code }

abbrev pub executed_result : SlotWindow → RunCounts → ScheduledResult
executed_result w c = record (sync_result w "executed" true true) { counts = some c }
