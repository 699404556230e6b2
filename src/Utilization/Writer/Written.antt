-- ===== src/Utilization/Writer/Written.antt =====
-- What a write of chief-of-staff/backend/app/motive/vehicle_utilization_writer.py went through when it
-- returned: the batch is valid, its vehicles are known and its plan is committed.
use polaris_lab.Base.{ℕ, String, List, ◌≡◌, refl, arith}
use polaris_lab.Outcome.{Exc, Result, ok, err, ◌>>◌, >>=-eq-ok}
use polaris_lab.Utilization.Rollup.{Rollup}
use polaris_lab.Utilization.Writer.{
  WriteResult, raise_fault, handled, query, prepare, save, after_commit, after_prepare, write,
  write_result,
}
use polaris_lab.Utilization.Writer.Store.{
  Session, Database, vehicle_query, row_query, flush, commit, commit_session,
}
use polaris_lab.Utilization.Writer.Validate.{Batch, validate_batch}
use polaris_lab.Utilization.Writer.Checks.{IsValid, validate_batch-IsValid}
use polaris_lab.Utilization.Writer.Plan.{
  WritePlan, empty_plan, resolve_tenant_vehicles, plan_writes,
}
use polaris_lab.Utilization.Writer.Stage.{stage}

-- The inversion of a write that returned.
pub record IsWritten (db : Database) (b : Batch) (s : Session) (r : WriteResult) (s' : Session)
    : Type 0 where
  pub valid : IsValid b
  pub resolved : List (Rollup × ℕ)
  pub plan : WritePlan
  pub resolves : resolve_tenant_vehicles b.organization_id s.vehicles b.rollups ≡ ok resolved
  pub plans :
      plan_writes b.organization_id b.organization_slug s.working empty_plan resolved ≡ ok plan
  pub reports : r ≡ write_result b b.selected_provider_vehicle_ids plan
  pub commits : s' ≡ commit_session (stage db plan s)

handled-err :
    (st : Session) (e : Exc) (r : WriteResult) (s' : Session) → ¬ (handled st e ≡ (ok r, s'))
handled-err st e r s' h = ground arith

module _ (db : Database) (b : Batch) (s : Session) where
  after_commit-inv :
      (selected : List String) (plan : WritePlan) (st : Session) (m : Result (Unit {0}))
      (r : WriteResult) (s' : Session)
      → after_commit db b selected plan st m ≡ (ok r, s')
      → (r ≡ write_result b selected plan) × (s' ≡ commit_session st)
  after_commit-inv selected plan st (err e) r s' h = elim (handled-err st e r s' h) [ ]
  after_commit-inv selected plan st (ok u) r s' h = ground arith

  after_prepare-inv :
      (m : Result (List String × WritePlan)) (r : WriteResult) (s' : Session)
      → after_prepare db b s m ≡ (ok r, s')
      → (p : List String × WritePlan) × (m ≡ ok p)
        × (r ≡ write_result b p.0 p.1)
        × (s' ≡ commit_session (stage db p.1 s))
  unfolding save
  after_prepare-inv (err e) r s' h = elim (handled-err s e r s' h) [ ]
  after_prepare-inv (ok (selected, plan)) r s' h =
      let staged = stage db plan s in
      let saved = raise_fault (db.fault flush staged) >> raise_fault (db.fault commit staged) in
      let inv = after_commit-inv selected plan staged saved r s' h in
      ((selected, plan), refl, inv.0, inv.1)

  pub write-IsWritten :
      (r : WriteResult) (s' : Session) → write db b s ≡ (ok r, s') → IsWritten db b s r s'
  unfolding write prepare
  write-IsWritten r s' h =
      let inv = after_prepare-inv (prepare db b s) r s' h in
      let batch = >>=-eq-ok (validate_batch b) _ inv.1 in
      let first = >>=-eq-ok (query db vehicle_query s b.rollups) _ batch.2 in
      let resolved =
        >>=-eq-ok (resolve_tenant_vehicles b.organization_id s.vehicles b.rollups) _ first.2 in
      let second = >>=-eq-ok (query db row_query s b.rollups) _ resolved.2 in
      let plan =
        >>=-eq-ok
          (plan_writes b.organization_id b.organization_slug s.working empty_plan resolved.0) _
          second.2 in
      let valid = validate_batch-IsValid b batch.0 batch.1 in
      record {
        valid = valid.0;
        resolved = resolved.0;
        plan = plan.0;
        resolves = resolved.1;
        plans = plan.1;
        reports = ground (arith, plan.2, valid.1, inv.2);
        commits = ground (arith, plan.2, inv.3);
      }

-- A write that returned had a valid batch: the window is ordered, neither the selected nor the
-- returned vehicles repeat, and each rollup is of the batch's tenant, window and selection, with
-- units that the mode allows and the certified parser and endpoint.
pub write-IsValid :
    (db : Database) (b : Batch) (s : Session) (r : WriteResult) (s' : Session)
    → write db b s ≡ (ok r, s')
    → IsValid b
write-IsValid db b s r s' h = (write-IsWritten db b s r s' h).valid
