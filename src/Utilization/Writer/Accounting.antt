-- ===== src/Utilization/Writer/Accounting.antt =====
-- The counts that a write of
-- chief-of-staff/backend/app/motive/vehicle_utilization_writer.py reports, and what it stored.
use polaris_lab.Python.Decimal.{Decimal}
use polaris_lab.Base.{suc}
use polaris_lab.Utilization.Writer.Store.{Field}
use polaris_lab.Base.{
  suc, ℕ, ◌+◌, String, true, false, ◌||◌, Option, none, some, List, [], ◌∷◌, length, length-append,
  str_eq, str_eq_sym, eq_iff, contains, All, Nodup, ◌≡◌, refl, ◌∙◌, ap, arith,
}
use polaris_lab.Outcome.{ok, >>=-eq-ok, Result-cases}
use polaris_lab.Utilization.Rollup.{Rollup}
use polaris_lab.Utilization.Pages.Page.{vehicle_ids}
use polaris_lab.Utilization.Writer.{WriteResult, write, missing_count, returned_id}
use polaris_lab.Utilization.Writer.Store.{
  Row, Session, Database, UtilizationRecord, VehicleRecord, add_row, new_row, set_in_rows,
}
use polaris_lab.Utilization.Writer.Validate.{Batch}
use polaris_lab.Utilization.Writer.Checks.{IsCertified}
use polaris_lab.Utilization.Writer.Plan.{
  WritePlan, empty_plan, resolve_tenant_vehicles, vehicle_for, known_vehicle, plan_writes,
  decide_row, with_changes, build_new_row, existing_row, compute_mutable_field_changes, Changes,
  key_of,
}
use polaris_lab.Utilization.Writer.Stage.{add_rows, set_fields, reconcile_rows}
use polaris_lab.Utilization.Writer.Written.{write-IsWritten}

missing_count-absent :
    (r : Rollup) (rs : List Rollup) (selected : List String)
    → contains r.provider_vehicle_id selected ≡ false
    → missing_count (r ∷ rs) selected ≡ missing_count rs selected
missing_count-absent r rs [] h = refl
missing_count-absent r rs (x ∷ xs) h =
    ground (arith, missing_count-absent r rs xs, str_eq_sym x r.provider_vehicle_id)

missing_count-present :
    (r : Rollup) (rs : List Rollup) (selected : List String)
    → Nodup selected
    → contains r.provider_vehicle_id selected ≡ true
    → returned_id r.provider_vehicle_id rs ≡ false
    → missing_count rs selected ≡ 1 + missing_count (r ∷ rs) selected
missing_count-present r rs [] n c h = cc
missing_count-present r rs (x ∷ xs) n c h = ground (
  arith,
  missing_count-present r rs xs,
  missing_count-absent r rs xs,
  str_eq_sym x r.provider_vehicle_id,
  eq_iff x r.provider_vehicle_id,
)

contains-returned_id :
    (id : String) (rs : List Rollup) → returned_id id rs ≡ contains id (vehicle_ids rs)
contains-returned_id id [] = refl
contains-returned_id id (r ∷ rs) =
    ap (λ t. str_eq id r.provider_vehicle_id || t) (contains-returned_id id rs)

missing_empty : (ids : List String) → missing_count [] ids ≡ length ids
missing_empty [] = refl
missing_empty (x ∷ xs) = omega (arith, missing_empty xs)

missing_count-sum :
    (rs : List Rollup) (b : Batch)
    → Nodup b.selected_provider_vehicle_ids
    → Nodup (vehicle_ids rs)
    → All (IsCertified b) rs
    → missing_count rs b.selected_provider_vehicle_ids + length rs
      ≡ length b.selected_provider_vehicle_ids
missing_count-sum [] b n d c = ground (arith, missing_empty b.selected_provider_vehicle_ids)
missing_count-sum (r ∷ rs) b n d c = omega (
  arith,
  missing_count-sum rs b n d.1 c.1,
  missing_count-present r rs b.selected_provider_vehicle_ids n (c.0).chosen
      (contains-returned_id r.provider_vehicle_id rs ∙ d.0),
)

-- The rollups that the plan accounts for.
abbrev planned : WritePlan → ℕ
planned plan = length plan.rows_to_insert + plan.unchanged_count + length plan.rows_to_reconcile

with_changes-planned :
    (row : Row) (plan : WritePlan) (changes : Changes)
    → planned (with_changes row plan changes) ≡ 1 + planned plan
with_changes-planned row plan [] = omega arith
with_changes-planned row plan (c ∷ changes) =
    omega (arith, length-append plan.rows_to_reconcile ((row, c ∷ changes) ∷ []))

module _ (organization_id slug : String) (rows : List Row) where
  decide_row-planned :
      (plan : WritePlan) (r : Rollup) (id : ℕ) (found : Option Row) (plan' : WritePlan)
      → decide_row organization_id slug rows plan r id found ≡ ok plan'
      → planned plan' ≡ 1 + planned plan
  decide_row-planned plan r id none plan' h =
      ground
        (arith, length-append plan.rows_to_insert (build_new_row organization_id slug r id ∷ []))
  decide_row-planned plan r id (some row) plan' h = grind (
    arith,
    with_changes-planned row plan,
    Result-cases (compute_mutable_field_changes row.value r),
  )

  plan_writes-planned :
      (plan : WritePlan) (resolved : List (Rollup × ℕ)) (plan' : WritePlan)
      → plan_writes organization_id slug rows plan resolved ≡ ok plan'
      → planned plan' ≡ length resolved + planned plan
  unfolding plan_writes
  plan_writes-planned plan [] plan' h = ground arith
  plan_writes-planned plan ((r, id) ∷ rest) plan' h =
      let first =
        decide_row organization_id slug rows plan r id
          (existing_row (key_of organization_id slug rows r id) rows) in
      let got = >>=-eq-ok first (λ p. plan_writes organization_id slug rows p rest) h in
      omega (
        arith,
        decide_row-planned plan r id (existing_row (key_of organization_id slug rows r id) rows)
            got.0 got.1,
        plan_writes-planned got.0 rest plan' got.2,
      )

resolve-length :
    (o : String) (vs : List VehicleRecord) (rs : List Rollup) (resolved : List (Rollup × ℕ))
    → resolve_tenant_vehicles o vs rs ≡ ok resolved
    → length resolved ≡ length rs
unfolding resolve_tenant_vehicles
resolve-length o vs [] resolved h = ground arith
resolve-length o vs (r ∷ rs) resolved h =
    let id = >>=-eq-ok (known_vehicle (vehicle_for o r.provider_vehicle_id vs)) _ h in
    let rest = >>=-eq-ok (resolve_tenant_vehicles o vs rs) _ id.2 in
    ground (arith, resolve-length o vs rs rest.0 rest.1, rest.2)

module _ (db : Database) where
  length-add_row :
      (r : UtilizationRecord) (rows : List Row) → length (add_row db r rows) ≡ suc (length rows)
  unfolding add_row
  length-add_row r rows = omega (arith, length-append rows (new_row db r rows ∷ []))

  length-add_rows :
      (rs : List UtilizationRecord) (rows : List Row)
      → length (add_rows db rs rows) ≡ length rs + length rows
  unfolding add_rows
  length-add_rows [] rows = omega arith
  length-add_rows (r ∷ rs) rows =
      omega (arith, length-add_rows rs (add_row db r rows), length-add_row r rows)

  length-set_in_rows :
      (id : ℕ) (f : Field) (v : Option Decimal) (rows : List Row)
      → length (set_in_rows db id f v rows) ≡ length rows
  unfolding set_in_rows
  length-set_in_rows id f v [] = refl
  length-set_in_rows id f v (row ∷ rows) = ap suc (length-set_in_rows id f v rows)

  length-set_fields :
      (id : ℕ) (changes : Changes) (rows : List Row)
      → length (set_fields db id changes rows) ≡ length rows
  unfolding set_fields
  length-set_fields id [] rows = refl
  length-set_fields id ((f, v) ∷ changes) rows =
      length-set_fields id changes (set_in_rows db id f v rows) ∙ length-set_in_rows id f v rows

  length-reconcile_rows :
      (todo : List (Row × Changes)) (rows : List Row)
      → length (reconcile_rows db todo rows) ≡ length rows
  unfolding reconcile_rows
  length-reconcile_rows [] rows = refl
  length-reconcile_rows ((row, changes) ∷ todo) rows =
      length-reconcile_rows todo (set_fields db row.id changes rows)
      ∙ length-set_fields row.id changes rows

  -- After a write that returned, the counts of requested and returned vehicles are those of the
  -- batch, every rollup is counted once, as inserted, unchanged or updated, the missing vehicles are
  -- the selected ones less the returned ones, and the committed table has the rows that the session
  -- saw before and as many more as were inserted.
  pub write-accounts :
      (b : Batch) (s : Session) (r : WriteResult) (s' : Session)
      → write db b s ≡ (ok r, s')
      → (r.requested_vehicle_count ≡ length b.selected_provider_vehicle_ids)
        × (r.returned_rollup_count ≡ length b.rollups)
        × (r.records_inserted + r.records_unchanged + r.records_updated ≡ length b.rollups)
        × (r.missing_requested_vehicle_count + length b.rollups
            ≡ length b.selected_provider_vehicle_ids)
        × (length s'.committed ≡ length s.working + r.records_inserted)
  write-accounts b s r s' h =
      let w = write-IsWritten db b s r s' h in
      let counts =
        plan_writes-planned b.organization_id b.organization_slug s.working empty_plan w.resolved
          w.plan w.plans in
      let many = resolve-length b.organization_id s.vehicles b.rollups w.resolved w.resolves in
      let missing =
        missing_count-sum b.rollups b w.valid.distinct_selected w.valid.distinct_returned
          w.valid.certified in
      let rows = add_rows db w.plan.rows_to_insert s.working in
      let grown = length-add_rows w.plan.rows_to_insert s.working in
      let kept = length-reconcile_rows w.plan.rows_to_reconcile rows in
      rw (w.reports, w.commits)
        (refl, refl, omega (arith, counts, many), missing, omega (arith, grown, kept))
