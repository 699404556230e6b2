-- ===== src/Utilization/Tests/Ingests.antt =====
-- The production ingestion at the fleet of the tests: a provider that answers in imperial units, and a
-- database that refuses nothing.
use polaris_lab.Base.{
  find_first, ℕ, ◌+◌, true, false, Option, none, some, [], ◌∷◌, length, ◌≡◌, refl, arith,
}
use polaris_lab.Base.Int.{pos}
use polaris_lab.Outcome.{Exc, unexpected, Result, ok, err}
use polaris_lab.Python.Value.{Value, bool, int, text, list, object, nil, cons, end, field, lookup}
use polaris_lab.Python.Text.{strip, str_int}
use polaris_lab.Utilization.Http.{
  Response, answered, HttpClient, contract_json_response, page_request, payload_of, request_page,
  required_api_key, selected_ids,
}
use polaris_lab.Utilization.Pages.Page.{Paginates}
use polaris_lab.Utilization.Writer.Store.{add_row}
use polaris_lab.Utilization.Reconciliation.Schedule.{
  select_tenant_vehicles, provider_ids, is_lower_of, generate_day_windows,
}
use polaris_lab.Utilization.Production.Ledger.{
  Tables, Access, open_session, RunStatus, success, checkpoint_snapshot, is_checkpoint,
}
use polaris_lab.Utilization.Production.Lock.{
  World, granted, already_in_progress, with_run_lock, ensure_lock_anchor, take_row_lock, release,
}
use polaris_lab.Utilization.Production.Select.{
  production_ingestion_enabled, stored_ids, checked_ids, select_provider_vehicle_ids,
}
use polaris_lab.Utilization.Production.Page.{only_page, read_one_production_page}
use polaris_lab.Utilization.Production.Traces.{IsRecorded}
use polaris_lab.Utilization.Production.Settled.{Accounts}
use polaris_lab.Utilization.Production.Accounts.{run-Accounts}
use polaris_lab.Utilization.Production.Leaked.{RunCall, run_call, after_runs, leaked_lock}
use polaris_lab.Utilization.Production.Held.{held_after, run-held}
use polaris_lab.Utilization.Production.Run.{run-IsRecorded}
use polaris_lab.Utilization.Production.Eligible.{IsEligible, select-IsEligible, select_whole}
use polaris_lab.Utilization.Production.OnePage.{IsOnlyPage, only_page-IsOnlyPage}
use polaris_lab.Utilization.Production.Reports.{IngestionResult, successful_history_id}
use polaris_lab.Utilization.Production.{Services, run, ingest, ingest_days}
use polaris_lab.Utilization.Production.Days.{run_days, run_day}
use polaris_lab.Utilization.Metadata.{pagination_int, parse_pagination_metadata}
use polaris_lab.Utilization.Pages.{check_rollups}
use polaris_lab.Utilization.Parser.{
  decimal_metric, parse_items, parse_metrics, parse_rollup, parse_vehicle_utilization_rollups,
  provider_vehicle_id,
}
use polaris_lab.Utilization.Production.Persist.{advance, persist}
use polaris_lab.Utilization.UnitPolicy.{
  unit_persistence_readiness, unit_request_mode_from_bool, unit_request_mode_header_value,
}
use polaris_lab.Utilization.Writer.Plan.{
  compute_mutable_field_changes, decimal_differs, existing_row, existing_row_context_compatible,
  field_changes, plan_writes, resolve_tenant_vehicles, vehicle_for,
}
use polaris_lab.Utilization.Writer.Stage.{add_rows, reconcile_rows, set_fields}
use polaris_lab.Utilization.Writer.Validate.{
  for_each, normalize_ids, validate_batch, validate_no_duplicates, validate_parser_and_source,
  validate_request_context, validate_returned_vehicle, validate_rollup_organization_context,
  validate_rollup_request_window, validate_rollup_structure, validate_selected_vehicle_ids,
  validate_unit_context,
}
use polaris_lab.Utilization.Writer.{prepare, save, write}
use polaris_lab.Utilization.Tests.Data.{read_half, one_field, exact_database, vehicle, session}

abbrev imperial_item : Value
imperial_item = one_field "vehicle_idle_rollup" (
    object (
      field "vehicle" (object (field "id" (int (pos 7)) (field "metric_units" (bool false) end)))
        (field "utilization" (text " 12.5 ") end)))

abbrev imperial_payload : Value
imperial_payload = object (
    field "vehicle_idle_rollups" (list (cons imperial_item nil)) (
      field "pagination"
        (object (
          field "per_page" (int (pos 100))
            (field "page_no" (int (pos 1)) (field "total" (int (pos 1)) end))))
        end))

abbrev imperial_page : Response
imperial_page = record { status_code = 200; has_content = true; json = some imperial_payload }

abbrev imperial_client : HttpClient
imperial_client n r = answered imperial_page

abbrev refuse_open : Access → Tables → Option Exc
refuse_open open_session tables = some unexpected
refuse_open _ tables = none

abbrev services : Services
services = record {
  decimal = read_half;
  client = imperial_client;
  api_key = some "key";
  db = exact_database;
  next_history_id = λ rows. length rows + 1;
  refused = λ access tables. none;
  row_lock = λ tables. granted;
  lock_crash = unexpected;
}

abbrev first_world : World
first_world = record {
  session = session;
  tables = record { history = []; checkpoints = [] };
  held = [];
  sent = 0;
  snapshots = [];
}

run-IsRecorded_example :
    IsRecorded services "org" "slug" 20 100 200 [] none []
      (run services "org" "slug" 20 100 200 (some "on") first_world)
unfolding find_first
run-IsRecorded_example =
    run-IsRecorded services "org" "slug" 20 100 200 (some "on") first_world (λ tables. (refl, refl))

run-Accounts_example : Accounts 0 0 (run services "org" "slug" 20 100 200 (some "on") first_world)
run-Accounts_example =
    run-Accounts services "org" "slug" 20 100 200 (λ st s. tt) (some "on") first_world
      (λ tables. (refl, refl)) refl

run-held_example : held_after (run services "org" "slug" 20 100 200 (some "on") first_world) ≡ []
run-held_example =
    run-held services "org" "slug" 20 100 200 (some "on") first_world (λ tables. (refl, refl)) refl

-- A database that opens no session for the lock.
abbrev closed : Services
closed = record services { refused = refuse_open }

-- A run on those services or others.
abbrev call_on : Services → RunCall
call_on chosen = record {
  services = chosen;
  organization_id = "org";
  organization_slug = "slug";
  last_day = 20;
  started_at = 100;
  completed_at = 200;
  enabled = some "on";
}

leaked_lock_example :
    ((run_call (call_on closed) first_world).0 ≡ err unexpected)
    × (run_call
          (call_on services)
          (after_runs (call_on closed ∷ []) (run_call (call_on closed) first_world).1)
        ≡ (
          err already_in_progress,
          after_runs (call_on closed ∷ []) (run_call (call_on closed) first_world).1,
        ))
unfolding strip production_ingestion_enabled is_lower_of
leaked_lock_example =
    leaked_lock (call_on closed) first_world unexpected refl refl refl (call_on closed ∷ [])
      (call_on services) refl refl

select-IsEligible_example :
    ("7" ∷ [] ≡ provider_ids (select_tenant_vehicles "org" (vehicle ∷ []))) × IsEligible ("7" ∷ [])
unfolding strip select_provider_vehicle_ids checked_ids stored_ids select_tenant_vehicles
select-IsEligible_example = select-IsEligible "org" (vehicle ∷ []) ("7" ∷ []) refl

only_seven : IsEligible ("7" ∷ [])
unfolding strip
only_seven = record {
  some_vehicle = omega arith;
  few = omega arith;
  written = (refl, tt);
  distinct = (refl, tt);
}

select_whole_example :
    select_provider_vehicle_ids "org" (vehicle ∷ [])
    ≡ ok (provider_ids (select_tenant_vehicles "org" (vehicle ∷ [])))
unfolding select_tenant_vehicles
select_whole_example = select_whole "org" (vehicle ∷ []) only_seven

only_page-IsOnlyPage_example :
    Paginates
      (IsOnlyPage read_half imperial_client
        (some "key")
        "org"
        "slug"
        ("7" ∷ [])
        20
        imperial_payload)
      (only_page read_half imperial_client (some "key") "org" "slug" ("7" ∷ []) 20 imperial_payload)
only_page-IsOnlyPage_example =
    only_page-IsOnlyPage read_half imperial_client (some "key") "org" "slug" ("7" ∷ []) 20
      imperial_payload

abbrev observed : Result IngestionResult × World → Option RunStatus × ℕ × ℕ × ℕ
observed (ok r, w) = (some r.status, w.sent, length w.session.committed, length w.snapshots)
observed (err e, w) = (none, w.sent, length w.session.committed, length w.snapshots)

run_ingests :
    observed (run services "org" "slug" 20 100 200 (some "on") first_world)
    ≡ (some success, 7, 7, 1)
unfolding strip str_int lookup run production_ingestion_enabled is_lower_of with_run_lock
    ensure_lock_anchor find_first take_row_lock ingest select_provider_vehicle_ids checked_ids
    select_tenant_vehicles stored_ids ingest_days generate_day_windows run_days run_day
    read_one_production_page contract_json_response page_request payload_of request_page
    required_api_key selected_ids check_rollups pagination_int parse_pagination_metadata
    decimal_metric parse_items parse_metrics parse_rollup parse_vehicle_utilization_rollups
    provider_vehicle_id checkpoint_snapshot is_checkpoint release only_page advance persist
    successful_history_id unit_persistence_readiness unit_request_mode_from_bool
    unit_request_mode_header_value compute_mutable_field_changes decimal_differs existing_row
    existing_row_context_compatible field_changes plan_writes resolve_tenant_vehicles vehicle_for
    add_rows reconcile_rows set_fields add_row for_each normalize_ids validate_batch
    validate_no_duplicates validate_parser_and_source validate_request_context
    validate_returned_vehicle validate_rollup_organization_context validate_rollup_request_window
    validate_rollup_structure validate_selected_vehicle_ids validate_unit_context prepare save write
run_ingests = refl
