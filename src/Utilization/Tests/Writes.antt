-- ===== src/Utilization/Tests/Writes.antt =====
-- The writer at the fleet of the tests.
use polaris_lab.Base.{Option, ◌+◌, ◌≡◌, refl, [], ◌∷◌, length}
use polaris_lab.Outcome.{ok}
use polaris_lab.Python.Text.{strip}
use polaris_lab.Utilization.UnitPolicy.{unit_persistence_readiness}
use polaris_lab.Utilization.Writer.{WriteResult, write_result, prepare, save, write}
use polaris_lab.Utilization.Writer.Store.{
  Field, utilization_percent, idle_time, driving_time, idle_fuel, driving_fuel, Row, Session,
  add_row, set_in_rows, set_field,
}
use polaris_lab.Utilization.Writer.Validate.{
  for_each, validate_request_context, normalize_ids, validate_selected_vehicle_ids,
  validate_rollup_structure, validate_rollup_organization_context, validate_rollup_request_window,
  validate_no_duplicates, validate_returned_vehicle, validate_unit_context,
  validate_parser_and_source, validate_batch,
}
use polaris_lab.Utilization.Writer.Plan.{
  Key, Changes, existing_row, compute_mutable_field_changes, field_changes, decimal_differs,
  empty_plan, vehicle_for, resolve_tenant_vehicles, existing_row_context_compatible, plan_writes,
}
use polaris_lab.Utilization.Writer.Stage.{add_rows, set_fields, reconcile_rows}
use polaris_lab.Utilization.Writer.Checks.{IsValid}
use polaris_lab.Utilization.Writer.Atomic.{IsAtomic, write-IsAtomic}
use polaris_lab.Utilization.Writer.Written.{write-IsValid}
use polaris_lab.Utilization.Writer.Accounting.{write-accounts}
use polaris_lab.Utilization.Writer.Keeps.{AreKept}
use polaris_lab.Utilization.Writer.Frame.{write-AreKept}
use polaris_lab.Utilization.Writer.Replay.{AreSame, AreHeld, write-held}
use polaris_lab.Python.Decimal.{Decimal, finite, eqb}
use polaris_lab.Base.{some}
use polaris_lab.Base.Int.{pos}
use polaris_lab.Utilization.Rollup.{Rollup, Metrics}
use polaris_lab.Utilization.Writer.Keeps.{with_metrics}
use polaris_lab.Utilization.Writer.Fields.{changes-differs, AreExact}
use polaris_lab.Utilization.Writer.Lookup.{set_fields-reconciles}
use polaris_lab.Utilization.Tests.Data.{
  exact_database, batch, session, session_after, result_after, row, vehicle, unread, rollup,
  half_used,
}

write_runs : write exact_database batch session ≡ (ok result_after, session_after)
unfolding write prepare save strip unit_persistence_readiness for_each validate_request_context
    normalize_ids validate_selected_vehicle_ids validate_rollup_structure
    validate_rollup_organization_context validate_rollup_request_window validate_no_duplicates
    validate_returned_vehicle validate_unit_context validate_parser_and_source validate_batch
    vehicle_for resolve_tenant_vehicles existing_row existing_row_context_compatible decimal_differs
    field_changes compute_mutable_field_changes plan_writes add_rows set_fields reconcile_rows
    add_row set_in_rows
write_runs = refl

write-IsAtomic_example : IsAtomic exact_database batch session (write exact_database batch session)
write-IsAtomic_example = write-IsAtomic exact_database (λ st s. tt) batch session

write-IsValid_example : IsValid batch
write-IsValid_example =
    write-IsValid exact_database batch session result_after session_after write_runs

write-accounts_example :
    (result_after.requested_vehicle_count ≡ length batch.selected_provider_vehicle_ids)
    × (result_after.returned_rollup_count ≡ length batch.rollups)
    × (result_after.records_inserted + result_after.records_unchanged + result_after.records_updated
        ≡ length batch.rollups)
    × (result_after.missing_requested_vehicle_count + length batch.rollups
        ≡ length batch.selected_provider_vehicle_ids)
    × (length session_after.committed ≡ length session.working + result_after.records_inserted)
write-accounts_example =
    write-accounts exact_database batch session result_after session_after write_runs

-- A row of another tenant, and an older reading of vehicle 7 on the same day.
abbrev foreign_row : Row
foreign_row = record {
  id = 5;
  value = record row.value { organization_id = "other"; metrics = unread };
}

abbrev older_row : Row
older_row = record { id = 6; value = record row.value { metrics = unread } }

abbrev used_session : Session
used_session = record {
  vehicles = vehicle ∷ [];
  committed = foreign_row ∷ older_row ∷ [];
  working = foreign_row ∷ older_row ∷ [];
}

abbrev reconciled_session : Session
reconciled_session = record {
  vehicles = vehicle ∷ [];
  committed = foreign_row ∷ record { id = 6; value = row.value } ∷ [];
  working = foreign_row ∷ record { id = 6; value = row.value } ∷ [];
}

abbrev reconciled_result : WriteResult
reconciled_result = record result_after {
  records_inserted = 0;
  records_updated = 1;
  reconciled_fields_count = 1;
}

rewrite_runs : write exact_database batch used_session ≡ (ok reconciled_result, reconciled_session)
unfolding write prepare save strip unit_persistence_readiness for_each validate_request_context
    normalize_ids validate_selected_vehicle_ids validate_rollup_structure
    validate_rollup_organization_context validate_rollup_request_window validate_no_duplicates
    validate_returned_vehicle validate_unit_context validate_parser_and_source validate_batch
    vehicle_for resolve_tenant_vehicles existing_row existing_row_context_compatible decimal_differs
    field_changes compute_mutable_field_changes plan_writes add_rows set_fields reconcile_rows
    add_row set_in_rows set_field
rewrite_runs = refl

write-AreKept_example : AreKept "org" used_session.working reconciled_session.committed
write-AreKept_example =
    write-AreKept exact_database batch used_session reconciled_result reconciled_session
      ((refl, tt), (tt, tt)) rewrite_runs

batch_is_held : AreHeld "org" "slug" session_after.working ((rollup, 3) ∷ [])
unfolding existing_row existing_row_context_compatible decimal_differs eqb
batch_is_held = (record { row = row; found = refl; compatible = refl; metrics = same }, tt)
  where
    same : AreSame half_used half_used
    same utilization_percent = refl
    same idle_time = refl
    same driving_time = refl
    same idle_fuel = refl
    same driving_fuel = refl

write-held_example : write exact_database batch session_after ≡ (
  ok (write_result batch ("7" ∷ []) (record empty_plan { unchanged_count = 1 })),
  session_after,
)
unfolding strip unit_persistence_readiness for_each validate_request_context normalize_ids
    validate_selected_vehicle_ids validate_rollup_structure validate_rollup_organization_context
    validate_rollup_request_window validate_no_duplicates validate_returned_vehicle
    validate_unit_context validate_parser_and_source validate_batch vehicle_for
    resolve_tenant_vehicles
write-held_example =
    write-held exact_database batch session_after ("7" ∷ []) ((rollup, 3) ∷ []) (λ statement. refl)
      refl refl batch_is_held

abbrev day_key : Key
day_key = record {
  organization_id = "org";
  motive_vehicle_id = 3;
  request_window_start = some 20;
  request_window_end = some 20;
}

abbrev one_change : Changes
one_change = (utilization_percent, some (finite (pos 125) 1)) ∷ []

is_exact : AreExact exact_database half_used
unfolding decimal_differs eqb
is_exact utilization_percent = refl
is_exact idle_time = refl
is_exact driving_time = refl
is_exact idle_fuel = refl
is_exact driving_fuel = refl

set_fields-reconciles_example :
    (m : Metrics) × (existing_row day_key
        (set_fields exact_database 6 one_change used_session.working)
      ≡ some (with_metrics older_row m))
    × AreSame m half_used
unfolding existing_row compute_mutable_field_changes field_changes decimal_differs
set_fields-reconciles_example =
    set_fields-reconciles exact_database day_key rollup older_row one_change used_session.working
      is_exact refl refl

-- What a column with four fractional digits keeps of 0.12345.
abbrev rounded_row : Row
rounded_row = record {
  id = 6;
  value = record row.value { metrics = record unread { idle_fuel = some (finite (pos 1235) 4) } };
}

abbrev fine_rollup : Rollup
fine_rollup = record rollup { metrics = record unread { idle_fuel = some (finite (pos 12345) 5) } }

changes-differs_example :
    (c : Field × Option Decimal) × (changes : Changes) × (compute_mutable_field_changes
        rounded_row.value fine_rollup
      ≡ ok (c ∷ changes))
unfolding decimal_differs eqb
changes-differs_example = changes-differs rounded_row.value fine_rollup idle_fuel refl
