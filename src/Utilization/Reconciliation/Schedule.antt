-- ===== src/Utilization/Reconciliation/Schedule.antt =====
-- What a run of chief-of-staff/backend/app/motive/vehicle_utilization_recent_reconciliation.py works
-- through: the switch, the horizon, the days and the batches of vehicles. A day is its ordinal, and
-- `yesterday`, the last completed day of the company's calendar, is an argument; a date before day 0
-- does not occur, since a horizon has at most fourteen days.
use Prim.Native.Char.{code}
use polaris_lab.Base.{
  ℕ, zero, suc, ◌+◌, ◌-◌, ◌*◌, String, Bool, true, false, ◌&&◌, ◌||◌, Option, none, some, List, [],
  ◌∷◌, length, take, drop, ltb, leb, ◌==◌, if◌then◌else◌, str_eq,
}
use polaris_lab.Base.Int.{pos, negsuc}
use polaris_lab.Outcome.{reconciliation_error, Result, ok, err, ◌>>◌, raise_if}
use polaris_lab.Python.Value.{Value, int}
use polaris_lab.Python.Text.{strip}
use polaris_lab.Utilization.Rollup.{Date}
use polaris_lab.Utilization.Writer.Store.{VehicleRecord}

unfoldable pub lower_code : ℕ → ℕ
lower_code c = if leb 65 c && leb c 90 then c + 32 else c

-- `s.lower() == t`, for a `t` of the letters and digits that only ASCII letters and digits lower to.
unfoldable pub is_lower_of : String → String → Bool
unfolding lower_code
is_lower_of String.[] String.[] = true
is_lower_of (String.◌∷◌ c s) (String.◌∷◌ d t) = lower_code (code c) == code d && is_lower_of s t
is_lower_of _ _ = false

-- `recent_reconciliation_enabled`, by the value of the environment variable
unfoldable pub recent_reconciliation_enabled : Option String → Bool
unfolding is_lower_of
recent_reconciliation_enabled none = false
recent_reconciliation_enabled (some value) =
    let s = strip value in
    is_lower_of s "1" || is_lower_of s "true" || is_lower_of s "yes" || is_lower_of s "on"

abbrev pub max_recent_reconciliation_days : ℕ
max_recent_reconciliation_days = 14

abbrev pub max_vehicles_per_batch : ℕ
max_vehicles_per_batch = 100

abbrev pub recent_reconciliation_page_size : ℕ
recent_reconciliation_page_size = 100

abbrev runner_max_pages_per_unit : ℕ
runner_max_pages_per_unit = 1

abbrev pub runner_max_authorized_provider_calls : ℕ
runner_max_authorized_provider_calls = 200

-- `_validate_horizon_days`; the result is the number itself
unfoldable pub validate_horizon_days : Value → Result ℕ
validate_horizon_days (int (pos n)) = do
  raise_if (ltb n 1) (reconciliation_error "horizon_days_not_positive")
  raise_if (ltb max_recent_reconciliation_days n)
      (reconciliation_error "horizon_days_exceeds_maximum")
  ok n
validate_horizon_days (int (negsuc n)) = err (reconciliation_error "horizon_days_not_positive")
validate_horizon_days _ = err (reconciliation_error "invalid_horizon_days")

-- `_generate_day_windows`: each window is one day, so the day stands for both of its ends
unfoldable pub generate_day_windows : ℕ → Date → List Date
generate_day_windows zero end_date = []
generate_day_windows (suc offset) end_date =
    (end_date - offset) ∷ generate_day_windows offset end_date

insert_by_id : VehicleRecord → List VehicleRecord → List VehicleRecord
insert_by_id v [] = v ∷ []
insert_by_id v (w ∷ vehicles) =
    let rest = insert_by_id v vehicles in if leb v.id w.id then v ∷ w ∷ vehicles else w ∷ rest

-- `_select_tenant_vehicles`: the tenant's vehicles, by ascending id
unfoldable pub select_tenant_vehicles : String → List VehicleRecord → List VehicleRecord
unfolding insert_by_id
select_tenant_vehicles organization_id [] = []
select_tenant_vehicles organization_id (v ∷ vehicles) =
    let rest = select_tenant_vehicles organization_id vehicles in
    if str_eq v.organization_id organization_id then insert_by_id v rest else rest

abbrev pub provider_ids : List VehicleRecord → List String
provider_ids [] = []
provider_ids (v ∷ vehicles) = v.provider_vehicle_id ∷ provider_ids vehicles

-- `_batch_provider_vehicle_ids`; as many rounds as there are ids are enough.
unfoldable pub batches_of : ℕ → ℕ → List String → List (List String)
batches_of zero batch_size ids = []
batches_of (suc fuel) batch_size [] = []
batches_of (suc fuel) batch_size (id ∷ ids) =
    take batch_size (id ∷ ids) ∷ batches_of fuel batch_size (drop batch_size (id ∷ ids))

unfoldable pub batch_provider_vehicle_ids : List String → ℕ → List (List String)
batch_provider_vehicle_ids ids batch_size = batches_of (length ids) batch_size ids

-- `_max_authorized_provider_calls`
abbrev pub max_authorized_provider_calls : ℕ → ℕ → ℕ
max_authorized_provider_calls window_count batch_count =
    window_count * batch_count * runner_max_pages_per_unit

-- `_overall_status`
unfoldable pub overall_status : ℕ → ℕ → String
overall_status attempted completed =
    if completed == attempted
    then "success"
    else if ltb 0 completed
    then "partial_success"
    else "failed"
