-- ===== src/Utilization/UnitPolicy/Laws.antt =====
-- What readiness means: the stored unit is the one that was asked for, or nothing was asked for.
use polaris_lab.Base.{◌≡◌, ◌⊎◌, Bool, true, false, none, some, refl, inl, inr}
use polaris_lab.Python.Value.{Value, bool}
use polaris_lab.Utilization.UnitPolicy.{
  UnitRequestMode, metric, imperial, account_default, unit_request_mode_from_bool,
  unit_request_mode_measurement_system, unit_request_mode_expected_fuel_unit,
  provider_unit_indicator, unit_context_consistent, requested_measurement_system,
  requested_fuel_unit, writer_metric_units_header_value, unit_request_mode_header_value,
  unit_persistence_readiness,
}

-- For a forced unit system, a returned indicator is ready exactly when it is consistent with the
-- Boolean that was requested.
ready-eq-consistent :
    (requested : Bool) (returned : Value)
    → (unit_persistence_readiness returned requested none).ready_for_durable_persistence
      ≡ unit_context_consistent requested returned
unfolding unit_persistence_readiness unit_context_consistent
ready-eq-consistent true (bool true) = refl
ready-eq-consistent true (bool false) = refl
ready-eq-consistent false (bool true) = refl
ready-eq-consistent false (bool false) = refl
ready-eq-consistent requested _ = refl

-- Whatever the mode, a ready indicator is a returned Boolean that becomes the stored unit, and its
-- meaning is the measurement system of the mode, if the mode forces one.
ready_sound :
    (mode : UnitRequestMode) (requested : Bool) (returned : Value)
    → (unit_persistence_readiness returned requested (some mode)).ready_for_durable_persistence
      ≡ true
    → ((b : Bool) × (returned ≡ bool b)
        × ((unit_persistence_readiness returned requested (some mode)).resolved_metric_units
            ≡ some b))
      × ((unit_request_mode_measurement_system mode ≡ none)
          ⊎ (unit_request_mode_measurement_system mode ≡ provider_unit_indicator returned))
unfolding unit_persistence_readiness unit_request_mode_measurement_system provider_unit_indicator
ready_sound metric requested (bool true) h = ((true, refl, refl), inr refl)
ready_sound metric requested (bool false) h = cc
ready_sound imperial requested (bool true) h = cc
ready_sound imperial requested (bool false) h = ((false, refl, refl), inr refl)
ready_sound account_default requested (bool b) h = ((b, refl, refl), inl refl)
ready_sound mode requested _ h = cc

-- A mode that a Boolean stands for sends the header, the measurement system and the fuel unit that
-- the functions on Booleans give.
mode_from_bool_agrees :
    (requested : Bool)
    → let mode = unit_request_mode_from_bool requested in
      (unit_request_mode_header_value mode ≡ some (writer_metric_units_header_value requested))
      × (unit_request_mode_measurement_system mode ≡ some (requested_measurement_system requested))
      × (unit_request_mode_expected_fuel_unit mode ≡ some (requested_fuel_unit requested))
unfolding unit_request_mode_from_bool unit_request_mode_header_value
    writer_metric_units_header_value unit_request_mode_measurement_system
    requested_measurement_system unit_request_mode_expected_fuel_unit requested_fuel_unit
mode_from_bool_agrees true = (refl, refl, refl)
mode_from_bool_agrees false = (refl, refl, refl)
