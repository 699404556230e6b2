-- ===== src/Utilization/Writer/Validate.antt =====
-- The validation steps of chief-of-staff/backend/app/motive/vehicle_utilization_writer.py, on the
-- whole batch and in the source's order. The selected vehicles are a list of texts: the checks for
-- `None` and for arguments of another type have nothing to check here.
use polaris_lab.Base.{
  String, Bool, ◌||◌, not, Option, none, some, List, [], ◌∷◌, ◌++◌, ltb, ◌==◌, str_eq, contains,
}
use polaris_lab.Outcome.{Exc, writer_error, Result, ok, err, ◌>>=◌, ◌>>◌, raise_if}
use polaris_lab.Python.Value.{Value, null, bool}
use polaris_lab.Python.Text.{strip, is_empty}
use polaris_lab.Utilization.Rollup.{Rollup, Date, parser_version_v1, vehicle_utilization_endpoint}
use polaris_lab.Utilization.UnitPolicy.{
  UnitRequestMode, unit_persistence_readiness, canonical_writer_metric_units,
  unit_indicator_semantics_unresolved,
}

abbrev invalid_writer_request : Exc
invalid_writer_request = writer_error "invalid_writer_request"

-- `not value.strip()`
abbrev pub is_blank : String → Bool
is_blank s = is_empty (strip s)

-- A loop that only raises.
unfoldable pub for_each {ℓ} : {A : Type ℓ} → (A → Result (Unit {0})) → List A → Result (Unit {0})
for_each check [] = ok tt
for_each check (x ∷ xs) = do check x; for_each check xs

-- `_validate_request_context`
unfoldable pub validate_request_context : String → String → Date → Date → Result (Unit {0})
validate_request_context organization_id organization_slug window_start window_end = do
  raise_if (is_blank organization_id) invalid_writer_request
  raise_if (is_blank organization_slug) invalid_writer_request
  raise_if (ltb window_end window_start) (writer_error "request_window_invalid")

unfoldable pub normalize_ids : List String → List String → Result (List String)
normalize_ids normalized [] = ok normalized
normalize_ids normalized (raw_id ∷ ids) = do
  raise_if (is_blank raw_id) invalid_writer_request
  raise_if (contains raw_id normalized) invalid_writer_request
  normalize_ids (normalized ++ raw_id ∷ []) ids

abbrev pub some_selected : List String → Result (List String)
some_selected [] = err invalid_writer_request
some_selected (id ∷ ids) = ok (id ∷ ids)

-- `_validate_selected_vehicle_ids`
unfoldable pub validate_selected_vehicle_ids : List String → Result (List String)
validate_selected_vehicle_ids ids = do normalized ← normalize_ids [] ids; some_selected normalized

-- `_validate_rollup_structure`
unfoldable pub validate_rollup_structure : Rollup → Result (Unit {0})
validate_rollup_structure r = raise_if (is_blank r.provider_vehicle_id) invalid_writer_request

-- `_validate_rollup_organization_context`
unfoldable pub validate_rollup_organization_context : String → String → Rollup → Result (Unit {0})
validate_rollup_organization_context organization_id organization_slug r =
    raise_if
      (not (str_eq r.organization_id organization_id)
        || not (str_eq r.organization_slug organization_slug))
      (writer_error "organization_context_mismatch")

abbrev pub check_window : Date → Date → Option Date → Option Date → Result (Unit {0})
check_window window_start window_end (some start) (some stop) =
    raise_if (not (start == window_start) || not (stop == window_end))
      (writer_error "request_window_invalid")
check_window window_start window_end _ _ = err (writer_error "request_window_missing")

-- `_validate_rollup_request_window`
unfoldable pub validate_rollup_request_window : Date → Date → Rollup → Result (Unit {0})
validate_rollup_request_window window_start window_end r =
    check_window window_start window_end r.request_start_date r.request_end_date

-- `_validate_no_duplicate_returned_rollups`
unfoldable pub validate_no_duplicates : List String → List Rollup → Result (Unit {0})
validate_no_duplicates seen [] = ok tt
validate_no_duplicates seen (r ∷ rollups) = do
  raise_if (contains r.provider_vehicle_id seen) (writer_error "duplicate_returned_rollup")
  validate_no_duplicates (seen ++ r.provider_vehicle_id ∷ []) rollups

-- the body of `_validate_returned_vehicles_within_selected_set`
unfoldable pub validate_returned_vehicle : List String → Rollup → Result (Unit {0})
validate_returned_vehicle selected r =
    raise_if (not (contains r.provider_vehicle_id selected))
      (writer_error "unexpected_returned_vehicle")

abbrev pub units_value : Option Bool → Value
units_value none = null
units_value (some b) = bool b

abbrev code_or : String → Option String → String
code_or default none = default
code_or default (some code) = code

-- `_validate_unit_context`
unfoldable pub validate_unit_context : Option UnitRequestMode → Rollup → Result (Unit {0})
validate_unit_context mode r =
    let readiness =
      unit_persistence_readiness (units_value r.metric_units) canonical_writer_metric_units mode in
    raise_if (not readiness.ready_for_durable_persistence)
      (writer_error (code_or unit_indicator_semantics_unresolved readiness.error_code))

-- `_validate_parser_and_source`
unfoldable pub validate_parser_and_source : Rollup → Result (Unit {0})
validate_parser_and_source r = do
  raise_if (not (str_eq r.parser_version parser_version_v1))
      (writer_error "parser_version_not_certified")
  raise_if (not (str_eq r.source_endpoint vehicle_utilization_endpoint))
      (writer_error "source_endpoint_not_certified")

-- The arguments of a write.
pub record Batch : Type 0 where
  pub organization_id : String
  pub organization_slug : String
  pub selected_provider_vehicle_ids : List String
  pub request_window_start : Date
  pub request_window_end : Date
  pub rollups : List Rollup
  pub unit_request_mode : Option UnitRequestMode

-- Steps 1 to 7 of the transaction; the result is the selected set.
unfoldable pub validate_batch : Batch → Result (List String)
validate_batch b = do
  validate_request_context b.organization_id b.organization_slug b.request_window_start
      b.request_window_end
  selected ← validate_selected_vehicle_ids b.selected_provider_vehicle_ids
  for_each validate_rollup_structure b.rollups
  for_each (validate_rollup_organization_context b.organization_id b.organization_slug) b.rollups
  for_each (validate_rollup_request_window b.request_window_start b.request_window_end) b.rollups
  validate_no_duplicates [] b.rollups
  for_each (validate_returned_vehicle selected) b.rollups
  for_each (validate_unit_context b.unit_request_mode) b.rollups
  for_each validate_parser_and_source b.rollups
  ok selected
