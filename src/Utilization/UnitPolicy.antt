-- ===== src/Utilization/UnitPolicy.antt =====
-- chief-of-staff/backend/app/motive/vehicle_utilization_unit_policy.py: which unit system a request
-- asks for, and when a returned unit indicator may be stored. Where the source rejects an argument
-- that is no Boolean or no member of the enum, the type of the argument rules it out here.
pub mod Laws
use polaris_lab.Base.{String, Bool, true, false, ◌&&◌, not, Option, none, some, if◌then◌else◌}
use polaris_lab.Python.Value.{Value, null, bool}

-- MotiveVehicleUtilizationUnitRequestMode
pub data UnitRequestMode : Type 0 where
  metric imperial account_default : UnitRequestMode

abbrev pub unit_indicator_semantics_unresolved : String
unit_indicator_semantics_unresolved = "provider_unit_indicator_semantics_unresolved"

abbrev unit_context_invalid_type : String
unit_context_invalid_type = "provider_unit_context_invalid_type"

abbrev unit_context_mismatch : String
unit_context_mismatch = "provider_unit_policy_mismatch"

-- The kill switch RETURNED_METRIC_UNITS_BOOLEAN_SEMANTICS_CERTIFIED.
abbrev boolean_semantics_certified : Bool
boolean_semantics_certified = true

-- CANONICAL_WRITER_METRIC_UNITS
abbrev pub canonical_writer_metric_units : Bool
canonical_writer_metric_units = true

unfoldable pub unit_request_mode_from_bool : Bool → UnitRequestMode
unit_request_mode_from_bool requested = if requested then metric else imperial

-- The `X-Metric-Units` header; `none` means that it is left out.
unfoldable pub unit_request_mode_header_value : UnitRequestMode → Option String
unit_request_mode_header_value metric = some "true"
unit_request_mode_header_value imperial = some "false"
unit_request_mode_header_value account_default = none

unfoldable pub unit_request_mode_measurement_system : UnitRequestMode → Option String
unit_request_mode_measurement_system metric = some "metric"
unit_request_mode_measurement_system imperial = some "imperial"
unit_request_mode_measurement_system account_default = none

unfoldable pub unit_request_mode_expected_fuel_unit : UnitRequestMode → Option String
unit_request_mode_expected_fuel_unit metric = some "liters"
unit_request_mode_expected_fuel_unit imperial = some "gallons"
unit_request_mode_expected_fuel_unit account_default = none

unfoldable pub requested_measurement_system : Bool → String
requested_measurement_system requested = if requested then "metric" else "imperial"

unfoldable pub requested_fuel_unit : Bool → String
requested_fuel_unit requested = if requested then "liters" else "gallons"

unfoldable pub writer_metric_units_header_value : Bool → String
writer_metric_units_header_value metric_units = if metric_units then "true" else "false"

-- What the returned indicator says of the unit system.
unfoldable pub provider_unit_indicator : Value → Option String
provider_unit_indicator (bool true) = some "metric"
provider_unit_indicator (bool false) = some "imperial"
provider_unit_indicator _ = none

abbrev same : Bool → Bool → Bool
same true b = b
same false b = not b

unfoldable pub unit_context_consistent : Bool → Value → Bool
unit_context_consistent requested (bool returned) = same requested returned
unit_context_consistent requested _ = false

-- VehicleUtilizationUnitPersistenceReadiness
pub record UnitPersistenceReadiness : Type 0 where
  pub ready_for_durable_persistence : Bool
  pub error_code : Option String
  pub resolved_metric_units : Option Bool

abbrev not_ready : String → UnitPersistenceReadiness
not_ready code = record {
  ready_for_durable_persistence = false;
  error_code = some code;
  resolved_metric_units = none;
}

abbrev ready : Bool → UnitPersistenceReadiness
ready returned = record {
  ready_for_durable_persistence = true;
  error_code = none;
  resolved_metric_units = some returned;
}

-- The readiness of a returned Boolean: nothing was forced, or it must be what was asked for.
abbrev boolean_readiness : UnitRequestMode → Bool → UnitPersistenceReadiness
boolean_readiness account_default returned = ready returned
boolean_readiness metric returned =
    if same true returned then ready returned else not_ready unit_context_mismatch
boolean_readiness imperial returned =
    if same false returned then ready returned else not_ready unit_context_mismatch

abbrev resolved_mode : Bool → Option UnitRequestMode → UnitRequestMode
resolved_mode requested none = unit_request_mode_from_bool requested
resolved_mode requested (some mode) = mode

-- validate_vehicle_utilization_unit_persistence_readiness
unfoldable pub unit_persistence_readiness :
    Value → Bool → Option UnitRequestMode → UnitPersistenceReadiness
unfolding unit_request_mode_from_bool
unit_persistence_readiness (bool returned) requested_metric_units requested_mode =
    if boolean_semantics_certified
    then boolean_readiness (resolved_mode requested_metric_units requested_mode) returned
    else not_ready unit_indicator_semantics_unresolved
unit_persistence_readiness null requested_metric_units requested_mode =
    not_ready unit_indicator_semantics_unresolved
unit_persistence_readiness _ requested_metric_units requested_mode =
    not_ready unit_context_invalid_type
