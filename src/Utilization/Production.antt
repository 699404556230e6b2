-- ===== src/Utilization/Production.antt =====
-- `run_vehicle_utilization_production_ingestion` of
-- chief-of-staff/backend/app/motive/vehicle_utilization_production_ingestion.py: the last seven completed
-- days, one request each, under a lock for the organization, recorded in one history row and, after a
-- full success, in the checkpoint. Its parts are the bookkeeping (Ledger, Persist), the lock (Lock),
-- the choice of the vehicles (Select), the read of a day (Page) and the loop over the days (Days).
-- `last_day` stands for `end_date or _latest_completed_day()`, the day on which the last window ends.
pub mod Ledger
pub mod Persist
pub mod Select
pub mod Page
pub mod Reports
pub mod Lock
pub mod Days
pub mod Balance
pub mod Recorded
pub mod Traces
pub mod Ends
pub mod Exclusion
pub mod Run
pub mod Held
pub mod Leaked
pub mod Settled
pub mod Records
pub mod Accounts
pub mod Eligible
pub mod OnePage
use polaris_lab.Base.{
  ℕ, ◌-◌, String, Bool, true, false, ◌&&◌, ◌||◌, not, Option, none, some, List, [], ◌∷◌, ◌++◌,
  length, ltb, ◌==◌, str_eq, if◌then◌else◌,
}
use polaris_lab.Outcome.{Exc, production_error, Result, ok, err, ◌>>=◌, ◌>>◌, raise_if}
use polaris_lab.Python.Text.{strip, is_empty}
use polaris_lab.Python.Decimal.{Reader}
use polaris_lab.Utilization.Rollup.{Date, motive_provider}
use polaris_lab.Utilization.Http.{HttpClient}
use polaris_lab.Utilization.Writer.{raise_fault}
use polaris_lab.Utilization.Writer.Store.{Session, Database}
use polaris_lab.Utilization.Production.Ledger.{
  resource, run_mode, FailedWindow, RunStatus, success, partial_success, failed, Tally, Report,
  Snapshot, History, Tables, Access, read_checkpoint, read_vehicles, read_history,
  checkpoint_snapshot, is_success,
}
use polaris_lab.Utilization.Production.Persist.{persist}
use polaris_lab.Utilization.Production.Select.{
  production_horizon_days, production_max_provider_calls, production_ingestion_enabled, day_windows,
  select_provider_vehicle_ids,
}
use polaris_lab.Utilization.Production.Lock.{World, RowLock, with_run_lock}
use polaris_lab.Utilization.Production.Days.{Progress, zero_tally, first_progress, run_days}
use polaris_lab.Utilization.Production.Reports.{
  IngestionResult, broken_report, final_report, is_success_of, only_id, preflight_report, result_of,
  result_status_of, successes, successful_history_id,
}

-- What is outside of the code: the provider, the database and its locks.
pub record Services : Type 0 where
  pub decimal : Reader
  pub client : HttpClient
  pub api_key : Option String
  pub db : Database
  pub next_history_id : List History → ℕ
  pub refused : Access → Tables → Option Exc
  pub row_lock : Tables → RowLock
  -- what a lock query raises that no handler names
  pub lock_crash : Exc

-- `raise` after the run was recorded; a failure to record it is raised instead.
abbrev pub raise_after :
    {T : Type 0} → Exc → World → Result (Bool × Bool) × Tables × Session → Result T × World
raise_after e w (err e', tables, s) = (err e', record w { tables = tables; session = s })
raise_after e w (ok _, tables, s) = (err e, record w { tables = tables; session = s })

abbrev pub with_progress : Progress → World → World
with_progress st w = record w { session = st.session; sent = st.sent }

abbrev pub unless_refused : Option Exc → Option ℕ → Option ℕ
unless_refused none found = found
unless_refused (some e) found = none

-- The call of the snapshot, whose exceptions are logged and dropped.
abbrev pub request_snapshot : Option ℕ → Date → World → World
request_snapshot none last_day w = w
request_snapshot (some id) last_day w = record w {
  snapshots = w.snapshots ++ record { source_history_id = id; window_end = last_day } ∷ [];
}

module _ (services : Services) (organization_id organization_slug : String) (last_day : Date)
    (started_at completed_at : ℕ) where
  -- `_persist_history_and_checkpoint` as the run calls it.
  abbrev pub record_run : Report → Snapshot → World → Result (Bool × Bool) × Tables × Session
  record_run report before w =
      persist organization_id organization_slug started_at completed_at services.next_history_id
        services.refused report before last_day w.tables w.session

  abbrev pub history_id : Tables → Option ℕ
  history_id tables =
      unless_refused (services.refused read_history tables)
        (successful_history_id organization_id started_at tables.history)

  abbrev pub after_record :
      Report → World → Result (Bool × Bool) × Tables × Session → Result IngestionResult × World
  after_record report w (err e, tables, s) = (err e, record w { tables = tables; session = s })
  after_record report w (ok flags, tables, s) =
      let done : World = record w { tables = tables; session = s } in
      (
        ok (result_of report flags),
        if is_success report.result_status
            then request_snapshot (history_id tables) last_day done
            else done,
      )

  -- What follows the loop over the days.
  abbrev pub after_days :
      List String
      → List Date
      → Snapshot
      → World
      → Result (Unit {0}) × Progress
      → Result IngestionResult × World
  after_days ids windows before w (err e, st) =
      let w' = with_progress st w in
      raise_after (production_error "unexpected_error") w'
        (record_run (broken_report ids st) before w')
  after_days ids windows before w (ok _, st) =
      let w' = with_progress st w in
      after_record (final_report ids windows st) w'
        (record_run (final_report ids windows st) before w')

  abbrev pub over_budget : List Date → Bool
  over_budget windows =
      not (length windows == production_horizon_days)
      || ltb production_max_provider_calls (length windows)

  unfoldable pub ingest_days :
      List String → List Date → Snapshot → World → Result IngestionResult × World
  ingest_days ids windows before w =
      if over_budget windows
      then (err (production_error "production_call_budget_invariant_violated"), w)
      else after_days ids windows before w (
          run_days services.decimal services.client services.api_key services.db organization_id
            organization_slug ids windows (first_progress w.session w.sent))

  abbrev pub after_select : Snapshot → World → Result (List String) → Result IngestionResult × World
  after_select before w (ok ids) = ingest_days ids (day_windows last_day) before w
  after_select before w (err (production_error code)) =
      raise_after (production_error code) w (record_run (preflight_report code) before w)
  after_select before w (err e) = (err e, w)

  abbrev pub after_snapshot : World → Result (Unit {0}) → Result IngestionResult × World
  after_snapshot w (err e) = (err e, w)
  after_snapshot w (ok _) = after_select (checkpoint_snapshot organization_id w.tables) w (
      raise_fault (services.refused read_vehicles w.tables)
      >> select_provider_vehicle_ids organization_id w.session.vehicles)

  -- The body of the `with` statement.
  unfoldable pub ingest : World → Result IngestionResult × World
  ingest w = after_snapshot w (raise_fault (services.refused read_checkpoint w.tables))

  abbrev pub check_context : Option String → Result (Unit {0})
  check_context enabled = do
    raise_if (not (production_ingestion_enabled enabled))
        (production_error "production_ingestion_disabled")
    raise_if (is_empty (strip organization_id)) (production_error "invalid_organization_context")
    raise_if (is_empty (strip organization_slug)) (production_error "invalid_organization_context")

  abbrev pub after_context : World → Result (Unit {0}) → Result IngestionResult × World
  after_context w (err e) = (err e, w)
  after_context w (ok _) =
      with_run_lock organization_id organization_slug services.refused services.row_lock
        services.lock_crash ingest w

  -- `run_vehicle_utilization_production_ingestion`, by the value of its switch
  unfoldable pub run : Option String → World → Result IngestionResult × World
  run enabled w = after_context w (check_context enabled)
