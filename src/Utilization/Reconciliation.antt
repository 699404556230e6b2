-- ===== src/Utilization/Reconciliation.antt =====
-- The runner of chief-of-staff/backend/app/motive/vehicle_utilization_recent_reconciliation.py: each
-- day of the horizon times each batch of vehicles is read from the provider and written in a
-- transaction of its own. A failure that the runner names is recorded and the next unit goes on; any
-- other exception ends the run. The local variables of the run are its state. The fields of the
-- result that never change (resource, run mode and the four flags that are always False) are left
-- out.
mod Tally
pub mod Schedule
pub mod Units
pub mod Balance
pub mod Counts
pub mod Run
pub mod Authority
pub use Tally.*
use polaris_lab.Base.{
  not, ℕ, ◌+◌, String, Bool, true, false, Option, none, some, List, [], ◌∷◌, ◌++◌, length, ltb,
  if◌then◌else◌,
}
use polaris_lab.Outcome.{
  Exc, connector_error, pagination_error, writer_error, reconciliation_error, Result, ok, err,
  ◌>>=◌, ◌>>◌, raise_if,
}
use polaris_lab.Python.Value.{Value}
use polaris_lab.Python.Decimal.{Reader}
use polaris_lab.Utilization.Rollup.{Date}
use polaris_lab.Utilization.UnitPolicy.{account_default}
use polaris_lab.Utilization.Http.{HttpClient, Query}
use polaris_lab.Utilization.Pages.{PaginatedRead, read_vehicle_utilization_pages}
use polaris_lab.Utilization.Writer.Store.{tenant_query, Session, Database}
use polaris_lab.Utilization.Writer.Validate.{Batch}
use polaris_lab.Utilization.Writer.{raise_fault, WriteResult, write}
use polaris_lab.Utilization.Reconciliation.Schedule.{
  recent_reconciliation_enabled, validate_horizon_days, generate_day_windows,
  select_tenant_vehicles, provider_ids, batch_provider_vehicle_ids, max_vehicles_per_batch,
  max_authorized_provider_calls, runner_max_authorized_provider_calls,
  recent_reconciliation_page_size, overall_status,
}

module _ (decimal : Reader) (client : HttpClient) (api_key : Option String) (db : Database)
    (organization_id organization_slug : String) where
  abbrev pub query_of : Date → List String → Query
  query_of day batch = record {
    organization_id = organization_id;
    organization_slug = organization_slug;
    provider_vehicle_ids = batch;
    start_date = day;
    end_date = day;
    per_page = recent_reconciliation_page_size;
    metric_units = true;
    unit_request_mode = some account_default;
  }

  abbrev pub batch_of : Date → List String → PaginatedRead → Batch
  batch_of day batch out = record {
    organization_id = organization_id;
    organization_slug = organization_slug;
    selected_provider_vehicle_ids = batch;
    request_window_start = day;
    request_window_end = day;
    rollups = out.rollups;
    unit_request_mode = some account_default;
  }

  -- What follows a call of the reader.
  abbrev pub after_read :
      Date → ℕ → List String → State → Result PaginatedRead × ℕ → Result (Unit {0}) × State
  after_read day batch_ordinal batch st (ok out, sent) =
      let read = record st { sent = sent; counters = count_read out st.counters } in
      after_write day batch_ordinal read (write db (batch_of day batch out) read.session)
  after_read day batch_ordinal batch st (err (connector_error code), sent) =
      (ok tt, failed_read day batch_ordinal code (record st { sent = sent }))
  after_read day batch_ordinal batch st (err (pagination_error code), sent) =
      (ok tt, failed_read day batch_ordinal code (record st { sent = sent }))
  after_read day batch_ordinal batch st (err e, sent) = (err e, record st { sent = sent })

  -- The body of the loop over the batches.
  unfoldable pub run_unit : Date → ℕ → List String → State → Result (Unit {0}) × State
  run_unit day batch_ordinal batch st =
      after_read day batch_ordinal batch (record st { counters = attempt st.counters })
        (read_vehicle_utilization_pages decimal client api_key (query_of day batch) st.sent)

  unfoldable pub run_batches : Date → ℕ → List (List String) → State → Result (Unit {0}) × State
  run_batches day batch_ordinal [] st = (ok tt, st)
  run_batches day batch_ordinal (batch ∷ batches) st =
      and_then (run_unit day batch_ordinal batch st) (run_batches day (batch_ordinal + 1) batches)

  unfoldable pub run_windows : List Date → List (List String) → State → Result (Unit {0}) × State
  run_windows [] batches st = (ok tt, st)
  run_windows (day ∷ windows) batches st =
      and_then
        (and_then (run_batches day 1 batches (record st { window_had_failure = false }))
          close_window)
        (run_windows windows batches)

  abbrev pub run_result : ℕ → ℕ → ℕ → Result (Unit {0}) × State → Result RunResult × Session × ℕ
  run_result horizon_days windows vehicles (err e, st) = (err e, st.session, st.sent)
  run_result horizon_days windows vehicles (ok _, st) = (
    ok (record {
      status =
          overall_status st.counters.vehicle_batches_attempted
            st.counters.vehicle_batches_completed;
      horizon_days = horizon_days;
      windows_attempted = windows;
      selected_vehicle_count = vehicles;
      counters = st.counters;
    }),
    st.session,
    st.sent,
  )

  -- `_no_op_result`
  abbrev no_op_result : ℕ → RunResult
  no_op_result horizon_days = record {
    status = "no_op";
    horizon_days = horizon_days;
    windows_attempted = 0;
    selected_vehicle_count = 0;
    counters = zero_counters;
  }

  abbrev pub over_budget : ℕ → ℕ → Bool
  over_budget windows batches =
      ltb runner_max_authorized_provider_calls (max_authorized_provider_calls windows batches)

  -- The run over the selected vehicles.
  unfoldable pub run_selected :
      ℕ → List Date → List String → Session → ℕ → Result RunResult × Session × ℕ
  run_selected horizon_days windows [] s sent = (ok (no_op_result horizon_days), s, sent)
  run_selected horizon_days windows (id ∷ ids) s sent =
      let batches = batch_provider_vehicle_ids (id ∷ ids) max_vehicles_per_batch in
      let done = run_windows windows batches (first_state s sent) in
      if over_budget (length windows) (length batches)
      then (err (reconciliation_error "call_budget_exceeded"), s, sent)
      else run_result horizon_days (length windows) (length (id ∷ ids)) done

  -- The query for the vehicles, which may fail, and what follows.
  abbrev pub after_query :
      ℕ → Date → Session → ℕ → Result (Unit {0}) → Result RunResult × Session × ℕ
  after_query horizon_days yesterday s sent (err e) = (err e, s, sent)
  after_query horizon_days yesterday s sent (ok _) =
      run_selected horizon_days (generate_day_windows horizon_days yesterday)
        (provider_ids (select_tenant_vehicles organization_id s.vehicles)) s sent

  abbrev pub with_horizon : Date → Session → ℕ → Result ℕ → Result RunResult × Session × ℕ
  with_horizon yesterday s sent (err e) = (err e, s, sent)
  with_horizon yesterday s sent (ok horizon_days) =
      after_query horizon_days yesterday s sent (raise_fault (db.fault tenant_query s))

  -- `run_recent_vehicle_utilization_reconciliation`
  unfoldable pub run : Option String → Value → Date → Session → ℕ → Result RunResult × Session × ℕ
  run enabled horizon_days yesterday s sent = with_horizon yesterday s sent (
      raise_if (not (recent_reconciliation_enabled enabled))
        (reconciliation_error "recent_reconciliation_disabled")
      >> validate_horizon_days horizon_days)
