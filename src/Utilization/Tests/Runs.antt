-- ===== src/Utilization/Tests/Runs.antt =====
-- The reconciliation runner at the fleet of the tests.
use polaris_lab.Python.Float.{float_bound}
use polaris_lab.Base.{◌≡◌, refl, some, [], ◌∷◌, All, length, arith}
use polaris_lab.Base.Int.{pos}
use polaris_lab.Outcome.{ok}
use polaris_lab.Python.Value.{int, lookup}
use polaris_lab.Python.Text.{strip, str_int}
use polaris_lab.Utilization.UnitPolicy.{unit_persistence_readiness}
use polaris_lab.Utilization.Parser.{
  provider_vehicle_id, decimal_metric, parse_metrics, parse_rollup, parse_items,
  parse_vehicle_utilization_rollups,
}
use polaris_lab.Utilization.Http.{
  contract_json_response, required_api_key, selected_ids, page_request, payload_of, request_page,
}
use polaris_lab.Utilization.Metadata.{pagination_int, parse_pagination_metadata}
use polaris_lab.Utilization.Pages.{
  expected_page_count, agreed_totals, check_rollups, with_page, take_page, checked_page, finished,
  after_page, read_page, read_loop, read_vehicle_utilization_pages,
}
use polaris_lab.Utilization.Writer.{prepare, save, write}
use polaris_lab.Utilization.Writer.Store.{add_row, set_in_rows}
use polaris_lab.Utilization.Writer.Validate.{
  for_each, validate_request_context, normalize_ids, validate_selected_vehicle_ids,
  validate_rollup_structure, validate_rollup_organization_context, validate_rollup_request_window,
  validate_no_duplicates, validate_returned_vehicle, validate_unit_context,
  validate_parser_and_source, validate_batch,
}
use polaris_lab.Utilization.Writer.Plan.{
  vehicle_for, resolve_tenant_vehicles, existing_row, existing_row_context_compatible,
  decimal_differs, field_changes, compute_mutable_field_changes, plan_writes,
}
use polaris_lab.Utilization.Writer.Stage.{add_rows, set_fields, reconcile_rows}
use polaris_lab.Utilization.Reconciliation.{
  Counters, RunResult, run_unit, run_batches, run_windows, run_selected, run,
}
use polaris_lab.Utilization.Reconciliation.Schedule.{
  recent_reconciliation_enabled, validate_horizon_days, generate_day_windows,
  select_tenant_vehicles, batches_of, batch_provider_vehicle_ids, overall_status,
}
use polaris_lab.Utilization.Reconciliation.Units.{
  flat, IsFilled, days_from, batches_flat, windows_days,
}
use polaris_lab.Utilization.Reconciliation.Run.{tenant_batches}
use polaris_lab.Utilization.Reconciliation.Authority.{IsAuthorized, run-IsAuthorized}
use polaris_lab.Utilization.Tests.Data.{read_half, one_page, exact_database, session, session_after}

windows_days_example : generate_day_windows 3 20 ≡ days_from 18 3
windows_days_example = windows_days 3 20 (omega arith)

batches_flat_example :
    (flat (batch_provider_vehicle_ids ("a" ∷ "b" ∷ "c" ∷ []) 2) ≡ "a" ∷ "b" ∷ "c" ∷ [])
    × All (IsFilled 2) (batch_provider_vehicle_ids ("a" ∷ "b" ∷ "c" ∷ []) 2)
batches_flat_example = batches_flat ("a" ∷ "b" ∷ "c" ∷ []) 2 (omega arith)

abbrev one_unit : Counters
one_unit = record {
  windows_completed = 1;
  windows_failed = 0;
  vehicle_batches_attempted = 1;
  vehicle_batches_completed = 1;
  vehicle_batches_failed = 0;
  provider_calls_attempted = 1;
  provider_calls_completed = 1;
  rollups_returned = 1;
  missing_requested_vehicle_count = 0;
  records_inserted = 1;
  records_unchanged = 0;
  records_updated = 0;
  reconciled_fields_count = 0;
  failed_units = [];
}

abbrev one_day : RunResult
one_day = record {
  status = "success";
  horizon_days = 1;
  windows_attempted = 1;
  selected_vehicle_count = 1;
  counters = one_unit;
}

run_runs :
    run read_half one_page
      (some "key")
      exact_database
      "org"
      "slug"
      (some "Yes")
      (int (pos 1))
      20
      session
      0
    ≡ (ok one_day, session_after, 1)
unfolding strip str_int lookup provider_vehicle_id decimal_metric parse_metrics parse_rollup
    parse_items parse_vehicle_utilization_rollups contract_json_response required_api_key
    selected_ids page_request payload_of request_page pagination_int parse_pagination_metadata
    float_bound expected_page_count agreed_totals check_rollups with_page take_page checked_page
    finished after_page read_page read_loop read_vehicle_utilization_pages write prepare save
    unit_persistence_readiness for_each validate_request_context normalize_ids
    validate_selected_vehicle_ids validate_rollup_structure validate_rollup_organization_context
    validate_rollup_request_window validate_no_duplicates validate_returned_vehicle
    validate_unit_context validate_parser_and_source validate_batch vehicle_for
    resolve_tenant_vehicles existing_row existing_row_context_compatible decimal_differs
    field_changes compute_mutable_field_changes plan_writes add_rows set_fields reconcile_rows
    add_row set_in_rows run_unit run_batches run_windows run_selected run
    recent_reconciliation_enabled validate_horizon_days generate_day_windows select_tenant_vehicles
    batches_of batch_provider_vehicle_ids overall_status
run_runs = refl

run-IsAuthorized_example :
    IsAuthorized
      (some "Yes")
      (int (pos 1))
      (length (tenant_batches read_half one_page (some "key") exact_database "org" "slug" session))
      one_day
run-IsAuthorized_example =
    run-IsAuthorized read_half one_page (some "key") exact_database "org" "slug" (some "Yes")
      (int (pos 1)) 20 session 0 one_day session_after 1 run_runs
