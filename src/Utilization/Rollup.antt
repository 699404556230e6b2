-- ===== src/Utilization/Rollup.antt =====
-- MotiveVehicleUtilizationRollup and its request context, of
-- chief-of-staff/backend/app/connectors/motive_vehicle_utilization.py. A date is its ordinal, the
-- number of days since day 0. The field `source_keys`, which nothing reads, is left out.
use polaris_lab.Base.{ℕ, String, Bool, Option}
use polaris_lab.Python.Decimal.{Decimal}

abbrev pub Date : Type 0
Date = ℕ

abbrev pub parser_version_v1 : String
parser_version_v1 = "motive_vehicle_idle_rollup_v1"

abbrev pub vehicle_utilization_endpoint : String
vehicle_utilization_endpoint = "/v1/vehicle_utilization"

abbrev pub motive_provider : String
motive_provider = "motive"

-- The five metrics that the provider returns for a vehicle.
pub record Metrics : Type 0 where
  pub utilization_percent : Option Decimal
  pub idle_time : Option Decimal
  pub driving_time : Option Decimal
  pub idle_fuel : Option Decimal
  pub driving_fuel : Option Decimal

pub record RequestContext : Type 0 where
  pub request_start_date : Option Date
  pub request_end_date : Option Date

pub record Rollup : Type 0 where
  pub organization_id : String
  pub organization_slug : String
  pub provider_vehicle_id : String
  pub source_endpoint : String
  pub provider : String
  pub metrics : Metrics
  pub metric_units : Option Bool
  pub request_start_date : Option Date
  pub request_end_date : Option Date
  pub parser_version : String
