-- ===== src/Dispatch/Tables.antt =====
-- The rows of chief-of-staff/backend/app/models/torqueai.py that an ingestion reads and writes, and a session
-- over them. A time is a number of seconds and a date an ordinal; a slot is the number of its hour. Primary
-- keys and the two stamps that the library sets are left out, since nothing here reads them.
use polaris_lab.Base.{find_first, change_first, ℕ, String, Bool, ◌&&◌, Option, List, str_eq}
use polaris_lab.Dispatch.Normalize.{NormalizedDispatch}

-- `TorqueAIDispatch`; its columns from the provider are those of a normalized record.
pub record DispatchRow : Type 0 where
  pub organization_id : String
  pub values : NormalizedDispatch
  pub first_observed_at : ℕ
  pub last_observed_at : ℕ
  pub last_changed_at : ℕ

pub data SyncStatus : Type 0 where
  sync_claimed sync_success sync_failed : SyncStatus

-- `TorqueAIDispatchSyncRun`; a scheduled run has its slot, and no other run has one.
pub record SyncRun : Type 0 where
  pub run_id : String
  pub organization_id : String
  pub requested_from : ℕ
  pub requested_to : ℕ
  pub page_size : ℕ
  pub status : SyncStatus
  pub trigger_slot : Option ℕ
  pub pages_fetched : ℕ
  pub provider_total_count : Option ℕ
  pub rows_validated : ℕ
  pub rows_inserted : ℕ
  pub rows_updated : ℕ
  pub rows_unchanged : ℕ
  pub error_code : Option String
  pub started_at : ℕ
  pub completed_at : Option ℕ

-- `TorqueAIDispatchSyncState`
pub record SyncState : Type 0 where
  pub organization_id : String
  pub last_successful_window_start : ℕ
  pub last_successful_window_end : ℕ
  pub last_successful_run_id : String
  pub last_successful_completed_at : ℕ

pub record DispatchTables : Type 0 where
  pub dispatches : List DispatchRow
  pub runs : List SyncRun
  pub states : List SyncState

-- The committed tables, and those tables as this session has changed them.
pub record DispatchSession : Type 0 where
  pub committed : DispatchTables
  pub working : DispatchTables

abbrev pub roll_back : DispatchSession → DispatchSession
roll_back s = record s { working = s.committed }

-- The query for a run by its id.
abbrev pub is_run : String → String → SyncRun → Bool
is_run organization_id run_id r = str_eq r.run_id run_id && str_eq r.organization_id organization_id

abbrev pub find_run : String → String → List SyncRun → Option SyncRun
find_run organization_id run_id runs = find_first (is_run organization_id run_id) runs

-- The run that an id names is changed; the unique constraint makes it the only one.
abbrev pub change_run : String → String → (SyncRun → SyncRun) → List SyncRun → List SyncRun
change_run organization_id run_id change runs =
    change_first (is_run organization_id run_id) change runs
