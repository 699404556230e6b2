-- ===== src/Utilization/Reconciliation/Tally.antt =====
-- The local variables of a run of
-- chief-of-staff/backend/app/motive/vehicle_utilization_recent_reconciliation.py, its result, and the
-- steps that only change these variables.
use polaris_lab.Base.{ℕ, ◌+◌, String, Bool, true, false, List, [], ◌∷◌, ◌++◌, length, if◌then◌else◌}
use polaris_lab.Outcome.{writer_error, Result, ok, err}
use polaris_lab.Utilization.Rollup.{Date}
use polaris_lab.Utilization.Pages.{PaginatedRead}
use polaris_lab.Utilization.Writer.Store.{Session}
use polaris_lab.Utilization.Writer.{WriteResult}

-- `FailedReconciliationUnit`
pub record FailedUnit : Type 0 where
  pub window_start : Date
  pub window_end : Date
  pub batch_ordinal : ℕ
  pub error_code : String

pub record Counters : Type 0 where
  pub windows_completed : ℕ
  pub windows_failed : ℕ
  pub vehicle_batches_attempted : ℕ
  pub vehicle_batches_completed : ℕ
  pub vehicle_batches_failed : ℕ
  pub provider_calls_attempted : ℕ
  pub provider_calls_completed : ℕ
  pub rollups_returned : ℕ
  pub missing_requested_vehicle_count : ℕ
  pub records_inserted : ℕ
  pub records_unchanged : ℕ
  pub records_updated : ℕ
  pub reconciled_fields_count : ℕ
  pub failed_units : List FailedUnit

abbrev pub zero_counters : Counters
zero_counters = record {
  windows_completed = 0;
  windows_failed = 0;
  vehicle_batches_attempted = 0;
  vehicle_batches_completed = 0;
  vehicle_batches_failed = 0;
  provider_calls_attempted = 0;
  provider_calls_completed = 0;
  rollups_returned = 0;
  missing_requested_vehicle_count = 0;
  records_inserted = 0;
  records_unchanged = 0;
  records_updated = 0;
  reconciled_fields_count = 0;
  failed_units = [];
}

-- `VehicleUtilizationRecentReconciliationResult`
pub record RunResult : Type 0 where
  pub status : String
  pub horizon_days : ℕ
  pub windows_attempted : ℕ
  pub selected_vehicle_count : ℕ
  pub counters : Counters

-- The session, the number of requests sent, and the local variables.
pub record State : Type 0 where
  pub session : Session
  pub sent : ℕ
  pub counters : Counters
  pub window_had_failure : Bool

-- `vehicle_batches_attempted += 1`
abbrev pub attempt : Counters → Counters
attempt c = record c { vehicle_batches_attempted = c.vehicle_batches_attempted + 1 }

-- `vehicle_batches_failed += 1` and the failed unit
abbrev fail_unit : Date → ℕ → String → Counters → Counters
fail_unit day batch_ordinal code c = record c {
  vehicle_batches_failed = c.vehicle_batches_failed + 1;
  failed_units =
      c.failed_units
      ++ record {
        window_start = day;
        window_end = day;
        batch_ordinal = batch_ordinal;
        error_code = code;
      }
        ∷ [];
}

abbrev count_failed_read : Counters → Counters
count_failed_read c = record c { provider_calls_attempted = c.provider_calls_attempted + 1 }

abbrev pub count_read : PaginatedRead → Counters → Counters
count_read out c = record c {
  provider_calls_attempted = c.provider_calls_attempted + out.provider_calls;
  provider_calls_completed = c.provider_calls_completed + out.provider_calls;
  rollups_returned = c.rollups_returned + length out.rollups;
}

abbrev count_written : WriteResult → Counters → Counters
count_written w c = record c {
  vehicle_batches_completed = c.vehicle_batches_completed + 1;
  missing_requested_vehicle_count =
      c.missing_requested_vehicle_count + w.missing_requested_vehicle_count;
  records_inserted = c.records_inserted + w.records_inserted;
  records_unchanged = c.records_unchanged + w.records_unchanged;
  records_updated = c.records_updated + w.records_updated;
  reconciled_fields_count = c.reconciled_fields_count + w.reconciled_fields_count;
}

abbrev pub failed_read : Date → ℕ → String → State → State
failed_read day batch_ordinal code st = record st {
  counters = fail_unit day batch_ordinal code (count_failed_read st.counters);
  window_had_failure = true;
}

-- What follows a call of the writer.
abbrev pub after_write : Date → ℕ → State → Result WriteResult × Session → Result (Unit {0}) × State
after_write day batch_ordinal st (ok w, s) =
    (ok tt, record st { session = s; counters = count_written w st.counters })
after_write day batch_ordinal st (err (writer_error code), s) = (
  ok tt,
  record st {
    session = s;
    counters = fail_unit day batch_ordinal code st.counters;
    window_had_failure = true;
  },
)
after_write day batch_ordinal st (err e, s) = (err e, record st { session = s })

-- The exception, or the next step in the new state.
abbrev pub and_then :
    Result (Unit {0}) × State → (State → Result (Unit {0}) × State) → Result (Unit {0}) × State
and_then (ok _, st) next = next st
and_then (err e, st) next = (err e, st)

-- The end of a window.
abbrev pub close_window : State → Result (Unit {0}) × State
close_window st =
    let c = st.counters in
    (
      ok tt,
      record st {
        counters =
            if st.window_had_failure
            then record c { windows_failed = c.windows_failed + 1 }
            else record c { windows_completed = c.windows_completed + 1 };
      },
    )

abbrev pub first_state : Session → ℕ → State
first_state s sent = record {
  session = s;
  sent = sent;
  counters = zero_counters;
  window_had_failure = false;
}
