-- ===== src/Utilization/Parser.antt =====
-- The parser of chief-of-staff/backend/app/connectors/motive_vehicle_utilization.py: one page of the
-- provider's answer to rollups. `decimal` reads a text as `decimal.Decimal` does.
pub mod Laws
use polaris_lab.Base.{
  String, Bool, true, false, Option, none, some, List, [], ◌∷◌, if◌then◌else◌, not,
}
use polaris_lab.Outcome.{Exc, parse_error, Result, ok, err, ◌>>=◌, ◌>>◌, raise_if}
use polaris_lab.Python.Value.{
  Value, null, bool, int, float, text, list, object, Items, nil, cons, Fields, lookup, or_null,
}
use polaris_lab.Python.Text.{strip, str_int, is_empty}
use polaris_lab.Python.Decimal.{Decimal, Reader, is_finite}
use polaris_lab.Utilization.Rollup.{
  Metrics, RequestContext, Rollup, parser_version_v1, vehicle_utilization_endpoint, motive_provider,
}

abbrev invalid_metric : Exc
invalid_metric = parse_error "invalid_metric_type"

-- The end of `_provider_vehicle_id`, on `str(value)`.
vehicle_id_of_text : String → Result String
vehicle_id_of_text value =
    let id = strip value in if is_empty id then err (parse_error "missing_vehicle_id") else ok id

-- `_provider_vehicle_id`
unfoldable pub provider_vehicle_id : Value → Result String
unfolding vehicle_id_of_text
provider_vehicle_id null = err (parse_error "missing_vehicle_id")
provider_vehicle_id (bool b) = err (parse_error "missing_vehicle_id")
provider_vehicle_id (object fields) = err (parse_error "invalid_vehicle_id")
provider_vehicle_id (list items) = err (parse_error "invalid_vehicle_id")
provider_vehicle_id (text s) = vehicle_id_of_text s
provider_vehicle_id (int n) = vehicle_id_of_text (str_int n)
provider_vehicle_id (float s) = vehicle_id_of_text s

-- A returned indicator that is no Boolean is dropped.
abbrev metric_units_of : Value → Option Bool
metric_units_of (bool b) = some b
metric_units_of _ = none

module _ (decimal : Reader) where
  finite_only : Option Decimal → Result (Option Decimal)
  finite_only none = err invalid_metric
  finite_only (some d) = if is_finite d then ok (some d) else err invalid_metric

  -- `_decimal_metric`
  unfoldable pub decimal_metric : Value → Result (Option Decimal)
  unfolding finite_only
  decimal_metric null = ok none
  decimal_metric (bool b) = err invalid_metric
  decimal_metric (object fields) = err invalid_metric
  decimal_metric (list items) = err invalid_metric
  decimal_metric (text s) =
      if is_empty (strip s) then err invalid_metric else finite_only (decimal (strip s))
  decimal_metric (int n) = finite_only (decimal (str_int n))
  decimal_metric (float s) = finite_only (decimal s)

  unfoldable pub parse_metrics : Fields → Result Metrics
  parse_metrics wrapped = do
    utilization ← decimal_metric (or_null (lookup "utilization" wrapped))
    idle_time ← decimal_metric (or_null (lookup "idle_time" wrapped))
    driving_time ← decimal_metric (or_null (lookup "driving_time" wrapped))
    idle_fuel ← decimal_metric (or_null (lookup "idle_fuel" wrapped))
    driving_fuel ← decimal_metric (or_null (lookup "driving_fuel" wrapped))
    ok (record {
      utilization_percent = utilization;
      idle_time = idle_time;
      driving_time = driving_time;
      idle_fuel = idle_fuel;
      driving_fuel = driving_fuel;
    })

  module _ (organization_id organization_slug : String) (context : RequestContext) where
    abbrev rollup_of : String → Metrics → Option Bool → Rollup
    rollup_of id metrics units = record {
      organization_id = organization_id;
      organization_slug = organization_slug;
      provider_vehicle_id = id;
      source_endpoint = vehicle_utilization_endpoint;
      provider = motive_provider;
      metrics = metrics;
      metric_units = units;
      request_start_date = context.request_start_date;
      request_end_date = context.request_end_date;
      parser_version = parser_version_v1;
    }

    parse_vehicle : Fields → Value → Result Rollup
    parse_vehicle wrapped (object vehicle) = do
      id ← provider_vehicle_id (or_null (lookup "id" vehicle))
      metrics ← parse_metrics wrapped
      ok (rollup_of id metrics (metric_units_of (or_null (lookup "metric_units" vehicle))))
    parse_vehicle wrapped _ = err (parse_error "missing_vehicle")

    parse_wrapped : Value → Result Rollup
    parse_wrapped null = err (parse_error "missing_wrapper")
    parse_wrapped (object wrapped) = parse_vehicle wrapped (or_null (lookup "vehicle" wrapped))
    parse_wrapped _ = err (parse_error "invalid_wrapper")

    -- `_parse_rollup`
    unfoldable pub parse_rollup : Value → Result Rollup
    unfolding parse_wrapped parse_vehicle
    parse_rollup (object raw) = parse_wrapped (or_null (lookup "vehicle_idle_rollup" raw))
    parse_rollup _ = err (parse_error "invalid_item")

    -- The comprehension over the items stops at the first that fails.
    unfoldable pub parse_items : Items → Result (List Rollup)
    parse_items nil = ok []
    parse_items (cons raw items) = do
      rollup ← parse_rollup raw
      rollups ← parse_items items
      ok (rollup ∷ rollups)

    parse_container : Value → Result (List Rollup)
    parse_container null = err (parse_error "missing_container")
    parse_container (list items) = parse_items items
    parse_container _ = err (parse_error "invalid_container")

    -- `parse_vehicle_utilization_rollups`
    unfoldable pub parse_vehicle_utilization_rollups : Value → Result (List Rollup)
    unfolding parse_container
    parse_vehicle_utilization_rollups (object payload) =
        parse_container (or_null (lookup "vehicle_idle_rollups" payload))
    parse_vehicle_utilization_rollups _ = err (parse_error "invalid_envelope")
