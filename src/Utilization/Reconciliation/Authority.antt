-- ===== src/Utilization/Reconciliation/Authority.antt =====
-- What a run of chief-of-staff/backend/app/motive/vehicle_utilization_recent_reconciliation.py was
-- allowed to do when it returned.
use native.Mathlib.Nat.{mul-one}
use polaris_lab.Base.{
  ℕ, ◌*◌, ◌≤◌, String, Bool, true, false, not, Option, List, [], ◌∷◌, length, ltb-false, ◌≡◌, refl,
  sym, arith, inl, inr, Bool-cases,
}
use polaris_lab.Base.Int.{pos}
use polaris_lab.Outcome.{reconciliation_error, Result, ok, err, ◌>>◌, raise_if}
use polaris_lab.Python.Value.{Value, int}
use polaris_lab.Python.Decimal.{Reader}
use polaris_lab.Utilization.Rollup.{Date}
use polaris_lab.Utilization.Http.{HttpClient}
use polaris_lab.Utilization.Writer.Store.{Session, Database}
use polaris_lab.Utilization.Reconciliation.Schedule.{
  recent_reconciliation_enabled, validate_horizon_days, generate_day_windows, provider_ids,
  select_tenant_vehicles, batch_provider_vehicle_ids, batches_of, max_vehicles_per_batch,
  max_recent_reconciliation_days, runner_max_authorized_provider_calls,
}
use polaris_lab.Utilization.Reconciliation.{
  after_query, State, RunResult, first_state, run_windows, run_result, over_budget, run_selected,
  with_horizon, run,
}
use polaris_lab.Utilization.Reconciliation.Units.{length-generate_day_windows}
use polaris_lab.Utilization.Reconciliation.Run.{tenant_batches}

-- The switch is on, the horizon is an int from 1 to 14, and its units fit the budget of calls.
pub record IsAuthorized (enabled : Option String) (horizon : Value) (batches : ℕ) (r : RunResult)
    : Type 0 where
  pub switched_on : recent_reconciliation_enabled enabled ≡ true
  pub exact : horizon ≡ int (pos r.horizon_days)
  pub at_least : 1 ≤ r.horizon_days
  pub at_most : r.horizon_days ≤ max_recent_reconciliation_days
  pub budget : r.horizon_days * batches ≤ runner_max_authorized_provider_calls

validate_horizon_days-inv :
    (v : Value) (n : ℕ)
    → validate_horizon_days v ≡ ok n
    → (v ≡ int (pos n)) × (1 ≤ n) × (n ≤ max_recent_reconciliation_days)
unfolding validate_horizon_days
validate_horizon_days-inv (int (pos m)) n h = ground arith
validate_horizon_days-inv v n h = ground arith

module _ (decimal : Reader) (client : HttpClient) (api_key : Option String) (db : Database)
    (organization_id slug : String) where
  run_result-horizon :
      (n windows vehicles : ℕ) (res : Result (Unit {0}) × State) (r : RunResult) (s' : Session)
      (sent' : ℕ)
      → run_result decimal client api_key db organization_id slug n windows vehicles res
        ≡ (ok r, s', sent')
      → r.horizon_days ≡ n
  run_result-horizon n windows vehicles (ok _, st) r s' sent' h = ground arith
  run_result-horizon n windows vehicles (err e, st) r s' sent' h = ground arith

  run_selected-budget :
      (n : ℕ) (windows : List Date) (ids : List String) (s : Session) (sent : ℕ) (r : RunResult)
      (s' : Session) (sent' : ℕ)
      → run_selected decimal client api_key db organization_id slug n windows ids s sent
        ≡ (ok r, s', sent')
      → (r.horizon_days ≡ n)
        × (length windows * length (batch_provider_vehicle_ids ids max_vehicles_per_batch)
            ≤ runner_max_authorized_provider_calls)
  unfolding run_selected batch_provider_vehicle_ids batches_of
  run_selected-budget n windows [] s sent r s' sent' h = (ground arith, omega arith)
  run_selected-budget n windows (id ∷ ids) s sent r s' sent' h =
      let batches = batch_provider_vehicle_ids (id ∷ ids) max_vehicles_per_batch in
      let done =
        run_windows decimal client api_key db organization_id slug windows batches
          (first_state s sent) in
      elim (Bool-cases (
        over_budget decimal client api_key db organization_id slug (length windows)
          (length batches))) [
            | inl over ↦
                let bad : (err (reconciliation_error "call_budget_exceeded"), s, sent)
                    ≡ (ok r, s', sent') =
                  rw over at h in
                cc
            | inr within ↦
                let good : run_result decimal client api_key db organization_id slug n
                      (length windows) (length (id ∷ ids)) done
                    ≡ (ok r, s', sent') =
                  rw within at h in
                (
                  run_result-horizon n (length windows) (length (id ∷ ids)) done r s' sent' good,
                  omega (arith, ltb-false _ _ within, mul-one (length windows * length batches)),
                )
          ]

  after_query-budget :
      (n : ℕ) (yesterday : Date) (s : Session) (sent : ℕ) (r : RunResult) (s' : Session) (sent' : ℕ)
      (asked : Result (Unit {0}))
      → after_query decimal client api_key db organization_id slug n yesterday s sent asked
        ≡ (ok r, s', sent')
      → (r.horizon_days ≡ n)
        × (length (generate_day_windows n yesterday)
              * length (tenant_batches decimal client api_key db organization_id slug s)
            ≤ runner_max_authorized_provider_calls)
  after_query-budget n yesterday s sent r s' sent' (err e) h = cc
  after_query-budget n yesterday s sent r s' sent' (ok _) h =
      run_selected-budget n (generate_day_windows n yesterday)
        (provider_ids (select_tenant_vehicles organization_id s.vehicles)) s sent r s' sent' h

  with_horizon-IsAuthorized :
      (enabled : Option String) (horizon : Value) (yesterday : Date) (s : Session) (sent : ℕ)
      (r : RunResult) (s' : Session) (sent' : ℕ) (on : Bool)
      → recent_reconciliation_enabled enabled ≡ on
      → (m : Result ℕ)
      → (raise_if (not on) (reconciliation_error "recent_reconciliation_disabled")
          >> validate_horizon_days horizon)
        ≡ m
      → with_horizon decimal client api_key db organization_id slug yesterday s sent m
        ≡ (ok r, s', sent')
      → IsAuthorized enabled horizon
          (length (tenant_batches decimal client api_key db organization_id slug s))
          r
  with_horizon-IsAuthorized enabled horizon yesterday s sent r s' sent' on e (err x) m h = cc
  with_horizon-IsAuthorized enabled horizon yesterday s sent r s' sent' false e (ok n) m h = cc
  with_horizon-IsAuthorized enabled horizon yesterday s sent r s' sent' true e (ok n) m h =
      let valid = validate_horizon_days-inv horizon n m in
      let fits = after_query-budget n yesterday s sent r s' sent' _ h in
      record {
        switched_on = e;
        exact = rw fits.0 valid.0;
        at_least = omega (arith, fits.0, valid.1);
        at_most = omega (arith, fits.0, valid.2);
        budget = rw (fits.0, sym (length-generate_day_windows n yesterday)) fits.1;
      }

  -- A run that returned was switched on, with an int from 1 to 14 as its horizon, and its days times
  -- its batches of vehicles are within the budget of 200 calls.
  pub run-IsAuthorized :
      (enabled : Option String) (horizon : Value) (yesterday : Date) (s : Session) (sent : ℕ)
      (r : RunResult) (s' : Session) (sent' : ℕ)
      → run decimal client api_key db organization_id slug enabled horizon yesterday s sent
        ≡ (ok r, s', sent')
      → IsAuthorized enabled horizon
          (length (tenant_batches decimal client api_key db organization_id slug s))
          r
  unfolding run
  run-IsAuthorized enabled horizon yesterday s sent r s' sent' h =
      with_horizon-IsAuthorized enabled horizon yesterday s sent r s' sent'
        (recent_reconciliation_enabled enabled) refl _ refl h
