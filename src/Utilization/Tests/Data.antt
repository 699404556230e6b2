-- ===== src/Utilization/Tests/Data.antt =====
-- The fleet that the other tests use.
use polaris_lab.Base.{◌+◌, String, true, none, some, [], ◌∷◌, length, str_eq, if◌then◌else◌}
use polaris_lab.Base.Int.{pos}
use polaris_lab.Python.Value.{Value, bool, int, text, list, object, nil, cons, end, field}
use polaris_lab.Python.Decimal.{finite, Reader}
use polaris_lab.Utilization.Rollup.{
  Metrics, RequestContext, Rollup, parser_version_v1, vehicle_utilization_endpoint, motive_provider,
}
use polaris_lab.Utilization.UnitPolicy.{account_default}
use polaris_lab.Utilization.Http.{Response, answered, HttpClient, Query}
use polaris_lab.Utilization.Writer.Store.{VehicleRecord, Row, Session, Database}
use polaris_lab.Utilization.Writer.Validate.{Batch}
use polaris_lab.Utilization.Writer.{WriteResult}

-- Reads the one text "12.5".
abbrev pub read_half : Reader
read_half s = if str_eq s "12.5" then some (finite (pos 125) 1) else none

abbrev pub one_field : String → Value → Value
one_field key v = object (field key v end)

abbrev vehicle_item : Value
vehicle_item = one_field "vehicle_idle_rollup" (
    object (
      field "vehicle" (object (field "id" (int (pos 7)) (field "metric_units" (bool true) end)))
        (field "utilization" (text " 12.5 ") end)))

abbrev pub payload : Value
payload = object (
    field "vehicle_idle_rollups" (list (cons vehicle_item nil)) (
      field "pagination"
        (object (
          field "per_page" (int (pos 100))
            (field "page_no" (int (pos 1)) (field "total" (int (pos 1)) end))))
        end))

abbrev page_response : Response
page_response = record { status_code = 200; has_content = true; json = some payload }

abbrev pub one_page : HttpClient
one_page n r = answered page_response

abbrev pub query : Query
query = record {
  organization_id = "org";
  organization_slug = "slug";
  provider_vehicle_ids = "7" ∷ [];
  start_date = 20;
  end_date = 20;
  per_page = 100;
  metric_units = true;
  unit_request_mode = some account_default;
}

abbrev pub window : RequestContext
window = record { request_start_date = some 20; request_end_date = some 20 }

abbrev pub half_used : Metrics
half_used = record {
  utilization_percent = some (finite (pos 125) 1);
  idle_time = none;
  driving_time = none;
  idle_fuel = none;
  driving_fuel = none;
}

abbrev pub unread : Metrics
unread = record half_used { utilization_percent = none }

abbrev pub rollup : Rollup
rollup = record {
  organization_id = "org";
  organization_slug = "slug";
  provider_vehicle_id = "7";
  source_endpoint = vehicle_utilization_endpoint;
  provider = motive_provider;
  metrics = half_used;
  metric_units = some true;
  request_start_date = some 20;
  request_end_date = some 20;
  parser_version = parser_version_v1;
}

abbrev pub exact_database : Database
exact_database = record {
  stored = λ d. d;
  next_id = λ rows. length rows + 1;
  fault = λ statement s. none;
}

abbrev pub vehicle : VehicleRecord
vehicle = record { id = 3; organization_id = "org"; provider_vehicle_id = "7" }

abbrev pub session : Session
session = record { vehicles = vehicle ∷ []; committed = []; working = [] }

abbrev pub batch : Batch
batch = record {
  organization_id = "org";
  organization_slug = "slug";
  selected_provider_vehicle_ids = "7" ∷ [];
  request_window_start = 20;
  request_window_end = 20;
  rollups = rollup ∷ [];
  unit_request_mode = some account_default;
}

abbrev pub row : Row
row = record {
  id = 1;
  value = record {
    organization_id = "org";
    organization_slug = "slug";
    provider = motive_provider;
    provider_vehicle_id = some "7";
    motive_vehicle_id = some 3;
    source_endpoint = vehicle_utilization_endpoint;
    request_window_start = some 20;
    request_window_end = some 20;
    metrics = half_used;
    metric_units = some true;
    parser_version = some parser_version_v1;
  };
}

abbrev pub session_after : Session
session_after = record { vehicles = vehicle ∷ []; committed = row ∷ []; working = row ∷ [] }

abbrev pub result_after : WriteResult
result_after = record {
  committed = true;
  requested_vehicle_count = 1;
  returned_rollup_count = 1;
  records_inserted = 1;
  records_unchanged = 0;
  records_updated = 0;
  missing_requested_vehicle_count = 0;
  reconciled_fields_count = 0;
}
