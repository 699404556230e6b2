-- ===== src/Utilization/Production/Days.antt =====
-- The loop over the days of
-- chief-of-staff/backend/app/motive/vehicle_utilization_production_ingestion.py: each day is read and
-- written in a transaction of its own, and a failure that the module names goes on to the next day.
use polaris_lab.Base.{ℕ, ◌+◌, String, Option, some, List, [], ◌∷◌, ◌++◌}
use polaris_lab.Outcome.{Exc, connector_error, pagination_error, writer_error, Result, ok, err}
use polaris_lab.Python.Decimal.{Reader}
use polaris_lab.Utilization.Rollup.{Date, Rollup}
use polaris_lab.Utilization.UnitPolicy.{imperial}
use polaris_lab.Utilization.Http.{HttpClient}
use polaris_lab.Utilization.Writer.Store.{Session, Database}
use polaris_lab.Utilization.Writer.Validate.{Batch}
use polaris_lab.Utilization.Writer.{WriteResult, write}
use polaris_lab.Utilization.Production.Ledger.{FailedWindow, Tally}
use polaris_lab.Utilization.Production.Page.{read_one_production_page}

-- The session, the requests sent, and the local variables of the loop.
pub record Progress : Type 0 where
  pub session : Session
  pub sent : ℕ
  pub tally : Tally
  pub failed_units : List FailedWindow

abbrev pub zero_tally : Tally
zero_tally = record {
  windows_completed = 0;
  provider_calls_attempted = 0;
  provider_calls_completed = 0;
  rollups_returned = 0;
  missing_requested_vehicle_count = 0;
  records_inserted = 0;
  records_unchanged = 0;
  records_updated = 0;
  reconciled_fields_count = 0;
}

abbrev pub first_progress : Session → ℕ → Progress
first_progress s sent = record { session = s; sent = sent; tally = zero_tally; failed_units = [] }

-- `provider_calls_attempted += 1`
abbrev pub attempt_call : Tally → Tally
attempt_call t = record t { provider_calls_attempted = t.provider_calls_attempted + 1 }

-- `provider_calls_completed += 1`
abbrev pub complete_call : Tally → Tally
complete_call t = record t { provider_calls_completed = t.provider_calls_completed + 1 }

abbrev count_day : WriteResult → Tally → Tally
count_day r t = record t {
  windows_completed = t.windows_completed + 1;
  rollups_returned = t.rollups_returned + r.returned_rollup_count;
  missing_requested_vehicle_count =
      t.missing_requested_vehicle_count + r.missing_requested_vehicle_count;
  records_inserted = t.records_inserted + r.records_inserted;
  records_unchanged = t.records_unchanged + r.records_unchanged;
  records_updated = t.records_updated + r.records_updated;
  reconciled_fields_count = t.reconciled_fields_count + r.reconciled_fields_count;
}

-- The handler of the failures that the module names.
abbrev pub fail_day : Date → String → Progress → Progress
fail_day day code st = record st {
  failed_units = st.failed_units ++ record { window = some day; error_code = code } ∷ [];
}

abbrev pub failing : Date → Progress → Exc → Result (Unit {0}) × Progress
failing day st (connector_error code) = (ok tt, fail_day day code st)
failing day st (pagination_error code) = (ok tt, fail_day day code st)
failing day st (writer_error code) = (ok tt, fail_day day code st)
failing day st e = (err e, st)

abbrev pub after_write_day :
    Date → Progress → Result WriteResult × Session → Result (Unit {0}) × Progress
after_write_day day st (ok r, s) = (ok tt, record st { session = s; tally = count_day r st.tally })
after_write_day day st (err e, s) = failing day (record st { session = s }) e

module _ (decimal : Reader) (client : HttpClient) (api_key : Option String) (db : Database)
    (organization_id organization_slug : String) (ids : List String) where
  abbrev pub day_batch : Date → List Rollup → Batch
  day_batch day rollups = record {
    organization_id = organization_id;
    organization_slug = organization_slug;
    selected_provider_vehicle_ids = ids;
    request_window_start = day;
    request_window_end = day;
    rollups = rollups;
    unit_request_mode = some imperial;
  }

  abbrev pub after_read_day :
      Date → Progress → Result (List Rollup) × ℕ → Result (Unit {0}) × Progress
  after_read_day day st (err e, sent) = failing day (record st { sent = sent }) e
  after_read_day day st (ok rollups, sent) =
      after_write_day day (record st { sent = sent; tally = complete_call st.tally })
        (write db (day_batch day rollups) st.session)

  -- The body of the loop.
  unfoldable pub run_day : Date → Progress → Result (Unit {0}) × Progress
  run_day day st =
      after_read_day day (record st { tally = attempt_call st.tally })
        (read_one_production_page decimal client api_key organization_id organization_slug ids day
          st.sent)

  abbrev pub continue :
      (Progress → Result (Unit {0}) × Progress)
      → Result (Unit {0}) × Progress
      → Result (Unit {0}) × Progress
  continue next (err e, st) = (err e, st)
  continue next (ok _, st) = next st

  -- The loop.
  unfoldable pub run_days : List Date → Progress → Result (Unit {0}) × Progress
  run_days [] st = (ok tt, st)
  run_days (day ∷ windows) st = continue (run_days windows) (run_day day st)
