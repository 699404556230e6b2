-- ===== src/Utilization/Writer/Plan.antt =====
-- Steps 8 to 10 of the transaction in
-- chief-of-staff/backend/app/motive/vehicle_utilization_writer.py: the vehicles of the tenant, the
-- rows that are there, and what is to be inserted, left alone or reconciled. The dictionary that
-- maps a provider's vehicle to its stored id is only read at the rollups, so here each rollup comes
-- with that id.
use polaris_lab.Base.{
  ℕ, ◌+◌, String, Bool, true, false, ◌&&◌, not, Option, none, some, List, [], ◌∷◌, ◌++◌, ◌==◌,
  if◌then◌else◌, str_eq,
}
use polaris_lab.Outcome.{writer_error, Result, ok, err, ◌>>=◌}
use polaris_lab.Python.Decimal.{Decimal, eqb}
use polaris_lab.Utilization.Rollup.{
  Metrics, Rollup, Date, parser_version_v1, vehicle_utilization_endpoint, motive_provider,
}
use polaris_lab.Utilization.Writer.Store.{
  VehicleRecord, UtilizationRecord, Row, Field, utilization_percent, idle_time, driving_time,
  idle_fuel, driving_fuel, get,
}

-- `resolved.get(id)`, where a later vehicle of the query's result replaces an earlier one.
unfoldable pub vehicle_for : String → String → List VehicleRecord → Option ℕ
vehicle_for organization_id provider_vehicle_id [] = none
vehicle_for organization_id provider_vehicle_id (v ∷ vehicles) =
    elim (vehicle_for organization_id provider_vehicle_id vehicles) [
      | some id ↦ some id
      | none ↦
          if str_eq v.organization_id organization_id
            && str_eq v.provider_vehicle_id provider_vehicle_id
          then some v.id
          else none
    ]

abbrev pub known_vehicle : Option ℕ → Result ℕ
known_vehicle none = err (writer_error "unknown_vehicle")
known_vehicle (some id) = ok id

-- `_resolve_tenant_vehicles`
unfoldable pub resolve_tenant_vehicles :
    String → List VehicleRecord → List Rollup → Result (List (Rollup × ℕ))
resolve_tenant_vehicles organization_id vehicles [] = ok []
resolve_tenant_vehicles organization_id vehicles (r ∷ rollups) = do
  id ← known_vehicle (vehicle_for organization_id r.provider_vehicle_id vehicles)
  resolved ← resolve_tenant_vehicles organization_id vehicles rollups
  ok ((r, id) ∷ resolved)

-- The durable identity of a row: the tenant, the vehicle and the window.
pub record Key : Type 0 where
  pub organization_id : String
  pub motive_vehicle_id : ℕ
  pub request_window_start : Option Date
  pub request_window_end : Option Date

abbrev same_id : Option ℕ → ℕ → Bool
same_id none n = false
same_id (some m) n = m == n

-- Equal dates, neither of them missing.
abbrev same_date : Option Date → Option Date → Bool
same_date (some a) (some b) = a == b
same_date _ _ = false

abbrev pub matches : Key → Row → Bool
matches k row =
    str_eq row.value.organization_id k.organization_id
    && same_id row.value.motive_vehicle_id k.motive_vehicle_id
    && same_date row.value.request_window_start k.request_window_start
    && same_date row.value.request_window_end k.request_window_end

-- `_load_existing_identity_rows`, at the key of one rollup
unfoldable pub existing_row : Key → List Row → Option Row
existing_row k [] = none
existing_row k (row ∷ rows) = elim (existing_row k rows) [
  | some found ↦ some found
  | none ↦ if matches k row then some row else none
]

abbrev same_bool : Option Bool → Option Bool → Bool
same_bool none none = true
same_bool (some true) (some b) = b
same_bool (some false) (some b) = not b
same_bool _ _ = false

-- `a == b` on texts that may be missing
abbrev is_text : Option String → String → Bool
is_text none t = false
is_text (some s) t = str_eq s t

abbrev equal_dates : Option Date → Option Date → Bool
equal_dates none none = true
equal_dates a b = same_date a b

-- `_existing_row_context_compatible`
unfoldable pub existing_row_context_compatible : UtilizationRecord → Rollup → Bool
existing_row_context_compatible existing r =
    same_bool existing.metric_units r.metric_units
    && str_eq existing.source_endpoint vehicle_utilization_endpoint
    && is_text existing.parser_version parser_version_v1
    && is_text existing.provider_vehicle_id r.provider_vehicle_id
    && equal_dates existing.request_window_start r.request_start_date
    && equal_dates existing.request_window_end r.request_end_date

-- `_decimal_differs`
unfoldable pub decimal_differs : Option Decimal → Option Decimal → Bool
decimal_differs none none = false
decimal_differs (some a) (some b) = not (eqb a b)
decimal_differs _ _ = true

-- MUTABLE_ON_PROVIDER_RECONCILIATION
abbrev pub mutable_on_provider_reconciliation : Field → Bool
mutable_on_provider_reconciliation utilization_percent = true
mutable_on_provider_reconciliation idle_time = true
mutable_on_provider_reconciliation driving_time = true
mutable_on_provider_reconciliation idle_fuel = true
mutable_on_provider_reconciliation driving_fuel = true

abbrev pub candidate_fields : List Field
candidate_fields = utilization_percent ∷ idle_time ∷ driving_time ∷ idle_fuel ∷ driving_fuel ∷ []

abbrev pub Changes : Type 0
Changes = List (Field × Option Decimal)

-- The loop of `_compute_mutable_field_changes` over the candidate fields.
unfoldable pub field_changes : List Field → Metrics → Metrics → Result Changes
field_changes [] existing incoming = ok []
field_changes (f ∷ fields) existing incoming =
    let rest = field_changes fields existing incoming in
    if not (decimal_differs (get f existing) (get f incoming))
    then rest
    else if not (mutable_on_provider_reconciliation f)
    then err (writer_error "provider_rollup_reconciliation_conflict")
    else (do changes ← rest; ok ((f, get f incoming) ∷ changes))

unfoldable pub compute_mutable_field_changes : UtilizationRecord → Rollup → Result Changes
unfolding field_changes
compute_mutable_field_changes existing r = field_changes candidate_fields existing.metrics r.metrics

-- `_build_new_row`
abbrev pub build_new_row : String → String → Rollup → ℕ → UtilizationRecord
build_new_row organization_id organization_slug r motive_vehicle_id = record {
  organization_id = organization_id;
  organization_slug = organization_slug;
  provider = motive_provider;
  provider_vehicle_id = some r.provider_vehicle_id;
  motive_vehicle_id = some motive_vehicle_id;
  source_endpoint = vehicle_utilization_endpoint;
  request_window_start = r.request_start_date;
  request_window_end = r.request_end_date;
  metrics = r.metrics;
  metric_units = r.metric_units;
  parser_version = some parser_version_v1;
}

-- `_WritePlan`
pub record WritePlan : Type 0 where
  pub rows_to_insert : List UtilizationRecord
  pub rows_to_reconcile : List (Row × Changes)
  pub unchanged_count : ℕ

abbrev pub empty_plan : WritePlan
empty_plan = record { rows_to_insert = []; rows_to_reconcile = []; unchanged_count = 0 }

abbrev pub with_changes : Row → WritePlan → Changes → WritePlan
with_changes existing plan [] = record plan { unchanged_count = plan.unchanged_count + 1 }
with_changes existing plan (c ∷ changes) = record plan {
  rows_to_reconcile = plan.rows_to_reconcile ++ (existing, c ∷ changes) ∷ [];
}

module _ (organization_id organization_slug : String) (rows : List Row) where
  abbrev pub key_of : Rollup → ℕ → Key
  key_of r id = record {
    organization_id = organization_id;
    motive_vehicle_id = id;
    request_window_start = r.request_start_date;
    request_window_end = r.request_end_date;
  }

  abbrev pub decide_row : WritePlan → Rollup → ℕ → Option Row → Result WritePlan
  decide_row plan r id none = ok (record plan {
    rows_to_insert =
        plan.rows_to_insert ++ build_new_row organization_id organization_slug r id ∷ [];
  })
  decide_row plan r id (some existing) =
      if not (existing_row_context_compatible existing.value r)
      then err (writer_error "conflicting_existing_identity")
      else (do
        changes ← compute_mutable_field_changes existing.value r
        ok (with_changes existing plan changes))

  -- The loop of `_plan_writes` over the rollups.
  unfoldable pub plan_writes : WritePlan → List (Rollup × ℕ) → Result WritePlan
  plan_writes plan [] = ok plan
  plan_writes plan ((r, id) ∷ resolved) = do
    plan' ← decide_row plan r id (existing_row (key_of r id) rows)
    plan_writes plan' resolved
