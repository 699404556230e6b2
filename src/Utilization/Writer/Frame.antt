-- ===== src/Utilization/Writer/Frame.antt =====
-- The plan of chief-of-staff/backend/app/motive/vehicle_utilization_writer.py names only rows of the
-- tenant, so that a write keeps all the others.
use mathlib.Core.Path.{subst}
use polaris_lab.Base.{
  ℕ, String, true, false, Option, none, some, List, [], ◌∷◌, eq_iff, ◌==◌, ==→eq, All, All-append,
  ◌≡◌, refl, arith, ◌⊎◌, inl, inr, Bool-cases, Option-cases,
}
use polaris_lab.Outcome.{ok-inj, ok, err, ◌>>=◌, >>=-eq-ok, writer_error}
use polaris_lab.Utilization.Rollup.{Rollup}
use polaris_lab.Utilization.Writer.{WriteResult, write}
use polaris_lab.Utilization.Writer.Store.{Row, Session, Database}
use polaris_lab.Utilization.Writer.Validate.{Batch}
use polaris_lab.Utilization.Writer.Plan.{
  WritePlan, empty_plan, plan_writes, decide_row, with_changes, build_new_row, existing_row,
  existing_row_context_compatible, compute_mutable_field_changes, Changes, Key, key_of, matches,
}
use polaris_lab.Utilization.Writer.Stage.{add_rows, reconcile_rows}
use polaris_lab.Utilization.Writer.Written.{write-IsWritten}
use polaris_lab.Utilization.Writer.Keeps.{
  AreKeyed, AreKept, AreKept-refl, IsOwn, IsOwned, AllOwned, IsNew, reconcile_rows-AreKept,
  add_rows-AreKept, AllOwned-add_rows,
}

existing_row-cases :
    (k : Key) (row : Row) (rows : List Row) (found : Row)
    → existing_row k (row ∷ rows) ≡ some found
    → (existing_row k rows ≡ some found) ⊎ ((matches k row ≡ true) × (row ≡ found))
unfolding existing_row
existing_row-cases k row rows found h = elim (Option-cases (existing_row k rows)) [
  | inl e ↦ ground arith
  | inr (x, e) ↦ ground arith
]

existing_row-All :
    (P : Row → Type 0) (k : Key) (rows : List Row) (found : Row)
    → existing_row k rows ≡ some found
    → All P rows
    → P found
unfolding existing_row
existing_row-All P k [] found h a = cc
existing_row-All P k (row ∷ rows) found h a = elim (existing_row-cases k row rows found h) [
  | inl later ↦ existing_row-All P k rows found later a.1
  | inr (m, here) ↦ subst P here a.0
]

matches-IsOwn : (k : Key) (row : Row) → matches k row ≡ true → IsOwn k.organization_id row
matches-IsOwn k row m = ground (arith, eq_iff row.value.organization_id k.organization_id)

apart :
    (k : Key) (row found : Row)
    → (row.id == found.id) ≡ true
    → (found.id == row.id) ≡ false
    → IsOwn k.organization_id row
apart k row found same other = ground (arith, ==→eq row.id found.id)

none_has :
    (o : String) (id : ℕ) (rows : List Row)
    → All (λ other. (other.id == id) ≡ false) rows
    → IsOwned o id rows
none_has o id [] h = tt
none_has o id (row ∷ rows) h = ((λ same. ground arith), none_has o id rows h.1)

existing_row-IsOwned :
    (k : Key) (rows : List Row) (found : Row)
    → AreKeyed rows
    → existing_row k rows ≡ some found
    → IsOwned k.organization_id found.id rows
unfolding existing_row
existing_row-IsOwned k [] found u h = tt
existing_row-IsOwned k (row ∷ rows) found u h = elim (existing_row-cases k row rows found h) [
  | inl later ↦ (
    λ same.
        apart k row found same
          (existing_row-All (λ other. (other.id == row.id) ≡ false) k rows found later u.0),
    existing_row-IsOwned k rows found u.1 later,
  )
  | inr (m, here) ↦ (
    λ same. matches-IsOwn k row m,
    subst (λ (x : Row). IsOwned k.organization_id x.id rows) here
        (none_has k.organization_id row.id rows u.0),
  )
]

module _ (organization_id slug : String) (db : Database) (rows : List Row)
    (keyed : AreKeyed rows) where
  -- The plan adds rows of the tenant and changes rows of the tenant.
  IsOwnPlan : WritePlan → Type 0
  IsOwnPlan plan =
      All (IsNew organization_id db) plan.rows_to_insert
      × AllOwned organization_id db plan.rows_to_reconcile rows

  with_changes-IsOwnPlan :
      (existing : Row) (plan : WritePlan) (changes : Changes)
      → IsOwned organization_id existing.id rows
      → IsOwnPlan plan
      → IsOwnPlan (with_changes existing plan changes)
  unfolding IsOwnPlan
  with_changes-IsOwnPlan existing plan [] own p = p
  with_changes-IsOwnPlan existing plan (c ∷ changes) own p = (
    p.0,
    All-append (λ c. IsOwned organization_id c.0.id rows) plan.rows_to_reconcile
        ((existing, c ∷ changes) ∷ []) p.1 (own, tt),
  )

  decide_row-IsOwnPlan :
      (plan : WritePlan) (r : Rollup) (id : ℕ) (found : Option Row) (plan' : WritePlan)
      → existing_row (key_of organization_id slug rows r id) rows ≡ found
      → decide_row organization_id slug rows plan r id found ≡ ok plan'
      → IsOwnPlan plan
      → IsOwnPlan plan'
  unfolding IsOwnPlan
  decide_row-IsOwnPlan plan r id none plan' e h p = subst IsOwnPlan (ok-inj h) (
    All-append (IsNew organization_id db) plan.rows_to_insert
        (build_new_row organization_id slug r id ∷ []) p.0 (refl, tt),
    p.1,
  )
  decide_row-IsOwnPlan plan r id (some existing) plan' e h p =
      elim (Bool-cases (existing_row_context_compatible existing.value r)) [
        | inl c ↦
            let found : (compute_mutable_field_changes existing.value r >>= λ changes.
            ok (with_changes existing plan changes))
                ≡ ok plan' =
              rw c at h in
            let got = >>=-eq-ok (compute_mutable_field_changes existing.value r) _ found in
            let own =
              existing_row-IsOwned (key_of organization_id slug rows r id) rows existing keyed e in
            subst IsOwnPlan (ok-inj got.2) (with_changes-IsOwnPlan existing plan got.0 own p)
        | inr c ↦
            let refused : err (writer_error "conflicting_existing_identity") ≡ ok plan' =
              rw c at h in
            cc
      ]

  plan_writes-IsOwnPlan :
      (plan : WritePlan) (resolved : List (Rollup × ℕ)) (plan' : WritePlan)
      → plan_writes organization_id slug rows plan resolved ≡ ok plan'
      → IsOwnPlan plan
      → IsOwnPlan plan'
  unfolding plan_writes IsOwnPlan
  plan_writes-IsOwnPlan plan [] plan' h p = ground arith
  plan_writes-IsOwnPlan plan ((r, id) ∷ rest) plan' h p =
      let key = key_of organization_id slug rows r id in
      let got =
        >>=-eq-ok (decide_row organization_id slug rows plan r id (existing_row key rows))
          (λ p. plan_writes organization_id slug rows p rest) h in
      plan_writes-IsOwnPlan got.0 rest plan' got.2
        (decide_row-IsOwnPlan plan r id (existing_row key rows) got.0 refl got.1 p)

  plan-AreKept :
      (resolved : List (Rollup × ℕ)) (plan : WritePlan)
      → plan_writes organization_id slug rows empty_plan resolved ≡ ok plan
      → AreKept organization_id rows
          (reconcile_rows db plan.rows_to_reconcile (add_rows db plan.rows_to_insert rows))
  unfolding IsOwnPlan
  plan-AreKept resolved plan h =
      let own = plan_writes-IsOwnPlan empty_plan resolved plan h (tt, tt) in
      let added = add_rows db plan.rows_to_insert rows in
      reconcile_rows-AreKept organization_id db plan.rows_to_reconcile rows added
        (AllOwned-add_rows organization_id db plan.rows_to_reconcile plan.rows_to_insert rows own.0
          own.1)
        (add_rows-AreKept organization_id db plan.rows_to_insert rows rows own.0
          (AreKept-refl organization_id rows))

-- When no primary key stands twice in the table, a write that returned kept every row in its place
-- with all its columns but the metrics, kept the metrics too of every other tenant's rows, and added
-- only rows of its own tenant behind them.
pub write-AreKept :
    (db : Database) (b : Batch) (s : Session) (r : WriteResult) (s' : Session)
    → AreKeyed s.working
    → write db b s ≡ (ok r, s')
    → AreKept b.organization_id s.working s'.committed
write-AreKept db b s r s' keyed h =
    let w = write-IsWritten db b s r s' h in
    rw w.commits (
      plan-AreKept b.organization_id b.organization_slug db s.working keyed w.resolved w.plan
        w.plans)
