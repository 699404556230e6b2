-- ===== src/Utilization/Production/Reports.antt =====
-- The reports and the result of a run,
-- chief-of-staff/backend/app/motive/vehicle_utilization_production_ingestion.py.
use polaris_lab.Base.{
  ℕ, ◌-◌, String, Bool, ◌&&◌, Option, none, some, List, [], ◌∷◌, ◌++◌, length, ltb, ◌==◌, str_eq,
  if◌then◌else◌,
}
use polaris_lab.Utilization.Rollup.{Date, motive_provider}
use polaris_lab.Utilization.Production.Ledger.{
  resource, run_mode, FailedWindow, RunStatus, success, partial_success, failed, Tally, Report,
  History,
}
use polaris_lab.Utilization.Production.Select.{production_horizon_days}
use polaris_lab.Utilization.Production.Days.{Progress, zero_tally}

-- `ProductionIngestionResult`, but for its constants.
pub record IngestionResult : Type 0 where
  pub status : RunStatus
  pub selected_vehicle_count : ℕ
  pub windows_attempted : ℕ
  pub windows_failed : ℕ
  pub tally : Tally
  pub checkpoint_advanced : Bool
  pub sync_history_written : Bool
  pub failed_units : List FailedWindow

abbrev pub preflight_report : String → Report
preflight_report code = record {
  result_status = failed;
  selected_vehicle_count = 0;
  windows_attempted = 0;
  windows_failed = 0;
  tally = zero_tally;
  failed_units = record { window = none; error_code = code } ∷ [];
}

-- The report of a run that an unexpected exception ended.
abbrev pub broken_report : List String → Progress → Report
broken_report ids st = record {
  result_status = if st.tally.windows_completed == 0 then failed else partial_success;
  selected_vehicle_count = length ids;
  windows_attempted = st.tally.provider_calls_attempted;
  windows_failed = st.tally.provider_calls_attempted - st.tally.windows_completed;
  tally = st.tally;
  failed_units = st.failed_units ++ record { window = none; error_code = "unexpected_error" } ∷ [];
}

abbrev pub result_status_of : Progress → RunStatus
result_status_of st =
    if st.tally.windows_completed == production_horizon_days && length st.failed_units == 0
    then success
    else if ltb 0 st.tally.windows_completed
    then partial_success
    else failed

abbrev pub final_report : List String → List Date → Progress → Report
final_report ids windows st = record {
  result_status = result_status_of st;
  selected_vehicle_count = length ids;
  windows_attempted = length windows;
  windows_failed = length st.failed_units;
  tally = st.tally;
  failed_units = st.failed_units;
}

abbrev pub result_of : Report → Bool × Bool → IngestionResult
result_of report (written, advanced) = record {
  status = report.result_status;
  selected_vehicle_count = report.selected_vehicle_count;
  windows_attempted = report.windows_attempted;
  windows_failed = report.windows_failed;
  tally = report.tally;
  checkpoint_advanced = advanced;
  sync_history_written = written;
  failed_units = report.failed_units;
}

-- The row that `_successful_history_id` looks for, in the history of the run's organization
abbrev pub is_success_of : String → ℕ → History → Bool
is_success_of organization_id started_at h =
    str_eq h.organization_id organization_id
    && str_eq h.provider motive_provider
    && str_eq h.provider_resource resource
    && str_eq h.mode run_mode
    && str_eq h.status "success"
    && h.started_at == started_at

abbrev pub successes : String → ℕ → List History → List ℕ
successes organization_id started_at [] = []
successes organization_id started_at (h ∷ rows) =
    let rest = successes organization_id started_at rows in
    if is_success_of organization_id started_at h then h.id ∷ rest else rest

-- `_successful_history_id`; no row and more than one row raise.
abbrev pub only_id : List ℕ → Option ℕ
only_id (id ∷ []) = some id
only_id _ = none

unfoldable pub successful_history_id : String → ℕ → List History → Option ℕ
successful_history_id organization_id started_at rows =
    only_id (successes organization_id started_at rows)
