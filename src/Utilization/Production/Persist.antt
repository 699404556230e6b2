-- ===== src/Utilization/Production/Persist.antt =====
-- `_persist_history_and_checkpoint` of
-- chief-of-staff/backend/app/motive/vehicle_utilization_production_ingestion.py: one history row for a
-- run, and with it, after a success, the checkpoint, in one transaction.
use polaris_lab.Base.{ℕ, ◌+◌, String, Bool, true, Option, some, List, [], ◌∷◌, ◌++◌, if◌then◌else◌}
use polaris_lab.Outcome.{
  Exc, production_error, integrity_error, sqlalchemy_error, Result, ok, err, ◌>>◌,
}
use polaris_lab.Utilization.Rollup.{Date, motive_provider}
use polaris_lab.Utilization.Writer.{raise_fault}
use polaris_lab.Utilization.Writer.Store.{Session, rollback, commit_session}
use polaris_lab.Utilization.Production.Ledger.{
  resource, run_mode, production_time_zone, imperial_value, production_fuel_unit,
  checkpoint_resource, Checkpoint, Snapshot, RunStatus, success, Report, History, Tables, Access,
  read_target, save, is_checkpoint, is_success, history_status, first_error, message_of,
  success_snapshot,
}

abbrev persistence_failed : Exc
persistence_failed = production_error "production_metadata_persistence_failed"

module _ (organization_id organization_slug : String) (started_at completed_at : ℕ)
    (next_id : List History → ℕ) (refused : Access → Tables → Option Exc) where
  abbrev pub history_row : Report → Snapshot → Date → List History → History
  history_row report before day rows = record {
    id = next_id rows;
    organization_id = organization_id;
    organization_slug = organization_slug;
    provider = motive_provider;
    provider_resource = resource;
    mode = run_mode;
    status = history_status report.result_status;
    started_at = started_at;
    completed_at = completed_at;
    records_read = report.tally.rollups_returned;
    records_written = report.tally.records_inserted + report.tally.records_updated;
    error_code = first_error report.failed_units;
    error_message_sanitized = message_of report.result_status;
    checkpoint_before = before;
    checkpoint_after = if is_success report.result_status then success_snapshot day else before;
    resource_counts = report;
    checkpoint_advanced = is_success report.result_status;
  }

  -- The checkpoint of the organization after a success.
  abbrev pub advanced : Date → Checkpoint
  advanced day = record {
    organization_id = organization_id;
    organization_slug = organization_slug;
    provider_resource = checkpoint_resource;
    updated_after_watermark = some day;
    last_successful_position = some (record {
      completed_through = some day;
      request_timezone = some production_time_zone;
      unit_request_mode = some imperial_value;
      fuel_unit = some production_fuel_unit;
    });
    checkpoint_status = "success";
    last_successful_sync_at = some completed_at;
  }

  -- The row that is there is updated, and otherwise one is added.
  unfoldable pub advance : Date → List Checkpoint → List Checkpoint
  unfolding is_checkpoint
  advance day [] = advanced day ∷ []
  advance day (c ∷ checkpoints) =
      if is_checkpoint organization_id checkpoint_resource c
      then advanced day ∷ checkpoints
      else c ∷ advance day checkpoints

  -- The tables with the rows of the run.
  abbrev pub recorded : Report → Snapshot → Date → Tables → Tables
  recorded report before day tables = record {
    history = tables.history ++ history_row report before day tables.history ∷ [];
    checkpoints =
        if is_success report.result_status
        then advance day tables.checkpoints
        else tables.checkpoints;
  }

  abbrev read_target_first : RunStatus → Tables → Result (Unit {0})
  read_target_first success tables = raise_fault (refused read_target tables)
  read_target_first _ tables = ok tt

  -- The two results tell that the history was written and whether the checkpoint advanced.
  abbrev pub after_save :
      Report
      → Tables
      → Tables
      → Session
      → Result (Unit {0})
      → Result (Bool × Bool) × Tables × Session
  after_save report tables tables' s (ok _) =
      (ok (true, is_success report.result_status), tables', commit_session s)
  after_save report tables tables' s (err integrity_error) =
      (err persistence_failed, tables, rollback s)
  after_save report tables tables' s (err sqlalchemy_error) =
      (err persistence_failed, tables, rollback s)
  after_save report tables tables' s (err e) = (err e, tables, s)

  -- `_persist_history_and_checkpoint`
  unfoldable pub persist :
      Report → Snapshot → Date → Tables → Session → Result (Bool × Bool) × Tables × Session
  persist report before day tables s =
      let tables' = recorded report before day tables in
      after_save report tables tables' s
        (read_target_first report.result_status tables >> raise_fault (refused save tables'))
