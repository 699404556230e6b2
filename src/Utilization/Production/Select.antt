-- ===== src/Utilization/Production/Select.antt =====
-- What a run of chief-of-staff/backend/app/motive/vehicle_utilization_production_ingestion.py begins
-- with: its switch, its days and its vehicles.
use polaris_lab.Base.{
  ℕ, String, Bool, true, false, ◌||◌, not, Option, none, some, List, [], ◌∷◌, length, take, ltb,
  ◌==◌, contains, if◌then◌else◌,
}
use polaris_lab.Outcome.{production_error, Result, ok, ◌>>=◌, ◌>>◌, raise_if}
use polaris_lab.Python.Text.{strip, is_empty}
use polaris_lab.Utilization.Rollup.{Date}
use polaris_lab.Utilization.Writer.Store.{VehicleRecord}
use polaris_lab.Utilization.Reconciliation.Schedule.{
  is_lower_of, select_tenant_vehicles, generate_day_windows,
}

abbrev pub production_horizon_days : ℕ
production_horizon_days = 7

abbrev production_max_vehicles : ℕ
production_max_vehicles = 100

abbrev pub production_max_provider_calls : ℕ
production_max_provider_calls = 7

abbrev pub production_page_size : ℕ
production_page_size = 100

-- `production_ingestion_enabled`, by the value of the environment variable
unfoldable pub production_ingestion_enabled : Option String → Bool
production_ingestion_enabled none = false
production_ingestion_enabled (some value) =
    let s = strip value in
    is_lower_of s "1" || is_lower_of s "true" || is_lower_of s "yes" || is_lower_of s "on"

-- `_day_windows`, computed as the windows of the reconciliation are; each window is one day.
abbrev pub day_windows : Date → List Date
day_windows end_date = generate_day_windows production_horizon_days end_date

abbrev is_none_left : List VehicleRecord → Bool
is_none_left [] = true
is_none_left (_ ∷ _) = false

-- The loop over the rows.
unfoldable pub stored_ids : List VehicleRecord → Result (List String)
stored_ids [] = ok []
stored_ids (row ∷ rows) = do
  raise_if (is_empty (strip row.provider_vehicle_id))
      (production_error "invalid_stored_vehicle_identity")
  ids ← stored_ids rows
  ok (row.provider_vehicle_id ∷ ids)

-- `set(ids)`
abbrev pub as_set : List String → List String
as_set [] = []
as_set (id ∷ ids) = let rest = as_set ids in if contains id ids then rest else id ∷ rest

unfoldable pub checked_ids : List VehicleRecord → Result (List String)
checked_ids rows = do
  raise_if (ltb production_max_vehicles (length rows))
      (production_error "production_vehicle_limit_exceeded")
  raise_if (is_none_left rows) (production_error "no_eligible_vehicles")
  ids ← stored_ids rows
  raise_if (not (length (as_set ids) == length ids))
      (production_error "duplicate_stored_vehicle_identity")
  ok ids

-- `_select_provider_vehicle_ids`; the query asks for one row more than the limit.
unfoldable pub select_provider_vehicle_ids : String → List VehicleRecord → Result (List String)
select_provider_vehicle_ids organization_id vehicles =
    checked_ids (take 101 (select_tenant_vehicles organization_id vehicles))
