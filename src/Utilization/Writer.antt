-- ===== src/Utilization/Writer.antt =====
-- `write_vehicle_utilization_transaction` of
-- chief-of-staff/backend/app/motive/vehicle_utilization_writer.py: the whole batch is validated and
-- planned before any row is staged, one commit ends it, and every failure rolls it back. Its parts
-- are the rows and the session (Store), the validation (Validate) and the plan (Plan).
pub mod Store
pub mod Validate
pub mod Plan
pub mod Stage
pub mod Raises
pub mod Atomic
pub mod Checks
pub mod Written
pub mod Accounting
pub mod Keeps
pub mod Frame
pub mod Replay
pub mod Fields
pub mod Lookup
use polaris_lab.Base.{
  ℕ, ◌+◌, String, Bool, true, false, ◌||◌, Option, none, some, List, [], ◌∷◌, length, str_eq,
  if◌then◌else◌,
}
use polaris_lab.Outcome.{
  Exc, writer_error, integrity_error, sqlalchemy_error, Result, ok, err, ◌>>=◌, ◌>>◌,
}
use polaris_lab.Utilization.Rollup.{Rollup}
use polaris_lab.Utilization.Writer.Store.{
  Session, Database, Statement, vehicle_query, row_query, flush, commit, rollback, commit_session,
}
use polaris_lab.Utilization.Writer.Validate.{Batch, validate_batch}
use polaris_lab.Utilization.Writer.Plan.{
  WritePlan, empty_plan, resolve_tenant_vehicles, plan_writes,
}
use polaris_lab.Utilization.Writer.Stage.{stage, reconciled_fields}

-- `VehicleUtilizationWriteResult`
pub record WriteResult : Type 0 where
  pub committed : Bool
  pub requested_vehicle_count : ℕ
  pub returned_rollup_count : ℕ
  pub records_inserted : ℕ
  pub records_unchanged : ℕ
  pub records_updated : ℕ
  pub missing_requested_vehicle_count : ℕ
  pub reconciled_fields_count : ℕ

abbrev pub returned_id : String → List Rollup → Bool
returned_id id [] = false
returned_id id (r ∷ rollups) = str_eq id r.provider_vehicle_id || returned_id id rollups

-- `len(selected_vehicle_set - returned_provider_vehicle_ids)`
abbrev pub missing_count : List Rollup → List String → ℕ
missing_count rollups [] = 0
missing_count rollups (id ∷ selected) =
    let rest = missing_count rollups selected in if returned_id id rollups then rest else 1 + rest

abbrev pub write_result : Batch → List String → WritePlan → WriteResult
write_result b selected plan = record {
  committed = true;
  requested_vehicle_count = length selected;
  returned_rollup_count = length b.rollups;
  records_inserted = length plan.rows_to_insert;
  records_unchanged = plan.unchanged_count;
  records_updated = length plan.rows_to_reconcile;
  missing_requested_vehicle_count = missing_count b.rollups selected;
  reconciled_fields_count = reconciled_fields plan.rows_to_reconcile;
}

abbrev pub raise_fault : Option Exc → Result (Unit {0})
raise_fault none = ok tt
raise_fault (some e) = err e

-- The handlers of the transaction; an exception that none of them names passes by without a
-- rollback.
abbrev pub handled : Session → Exc → Result WriteResult × Session
handled s (writer_error code) = (err (writer_error code), rollback s)
handled s integrity_error = (err (writer_error "database_identity_conflict"), rollback s)
handled s sqlalchemy_error = (err (writer_error "database_persistence_error"), rollback s)
handled s e = (err e, s)

module _ (db : Database) where
  -- A query that is only sent for a batch with rollups.
  abbrev pub query : Statement → Session → List Rollup → Result (Unit {0})
  query statement s [] = ok tt
  query statement s (r ∷ rollups) = raise_fault (db.fault statement s)

  -- Steps 1 to 10: nothing is staged yet.
  unfoldable pub prepare : Batch → Session → Result (List String × WritePlan)
  prepare b s = do
    selected ← validate_batch b
    query vehicle_query s b.rollups
    resolved ← resolve_tenant_vehicles b.organization_id s.vehicles b.rollups
    query row_query s b.rollups
    plan ← plan_writes b.organization_id b.organization_slug s.working empty_plan resolved
    ok (selected, plan)

  abbrev pub after_commit :
      Batch → List String → WritePlan → Session → Result (Unit {0}) → Result WriteResult × Session
  after_commit b selected plan staged (err e) = handled staged e
  after_commit b selected plan staged (ok _) =
      (ok (write_result b selected plan), commit_session staged)

  -- Steps 12 and 13, on the session with the staged rows
  unfoldable pub save : Batch → List String → WritePlan → Session → Result WriteResult × Session
  save b selected plan staged =
      after_commit b selected plan staged
        (raise_fault (db.fault flush staged) >> raise_fault (db.fault commit staged))

  abbrev pub after_prepare :
      Batch → Session → Result (List String × WritePlan) → Result WriteResult × Session
  after_prepare b s (err e) = handled s e
  after_prepare b s (ok (selected, plan)) = save b selected plan (stage db plan s)

  unfoldable pub write : Batch → Session → Result WriteResult × Session
  write b s = after_prepare b s (prepare b s)
