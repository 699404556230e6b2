-- ===== src/Utilization/Writer/Stage.antt =====
-- Step 11 of the transaction in
-- chief-of-staff/backend/app/motive/vehicle_utilization_writer.py: the new rows are added, then the
-- changed fields of the rows to reconcile are set one by one.
use polaris_lab.Base.{ℕ, ◌+◌, List, [], ◌∷◌, length}
use polaris_lab.Utilization.Writer.Store.{
  UtilizationRecord, Row, Session, Database, add_row, set_in_rows,
}
use polaris_lab.Utilization.Writer.Plan.{Changes, WritePlan}

module _ (db : Database) where
  unfoldable pub add_rows : List UtilizationRecord → List Row → List Row
  add_rows [] rows = rows
  add_rows (r ∷ records) rows = add_rows records (add_row db r rows)

  unfoldable pub set_fields : ℕ → Changes → List Row → List Row
  set_fields id [] rows = rows
  set_fields id ((f, v) ∷ changes) rows = set_fields id changes (set_in_rows db id f v rows)

  unfoldable pub reconcile_rows : List (Row × Changes) → List Row → List Row
  reconcile_rows [] rows = rows
  reconcile_rows ((row, changes) ∷ rest) rows = reconcile_rows rest (set_fields row.id changes rows)

  abbrev pub stage : WritePlan → Session → Session
  stage plan s = record s {
    working = reconcile_rows plan.rows_to_reconcile (add_rows plan.rows_to_insert s.working);
  }

-- `reconciled_fields_count`, summed over the rows
abbrev pub reconciled_fields : List (Row × Changes) → ℕ
reconciled_fields [] = 0
reconciled_fields ((row, changes) ∷ rest) = length changes + reconciled_fields rest
