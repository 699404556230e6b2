-- ===== src/Utilization/Reconciliation/Run.antt =====
-- A whole run of chief-of-staff/backend/app/motive/vehicle_utilization_recent_reconciliation.py.
use polaris_lab.Base.{some, ◌⊎◌, ℕ, ◌+◌, ◌*◌, ◌≤◌, String, Option, List, length, ◌≡◌}
use polaris_lab.Outcome.{unexpected, Exc, reconciliation_error, Result, ok, err}
use polaris_lab.Python.Value.{Value}
use polaris_lab.Python.Decimal.{Reader}
use polaris_lab.Utilization.Http.{HttpClient}
use polaris_lab.Utilization.Writer.Store.{Session, Database, IsFault}
use polaris_lab.Utilization.Reconciliation.Schedule.{
  provider_ids, select_tenant_vehicles, batch_provider_vehicle_ids, max_vehicles_per_batch,
}
use polaris_lab.Utilization.Reconciliation.{RunResult}
use polaris_lab.Utilization.Reconciliation.Counts.{Breaks}

-- What the status tells of the completed and the failed units.
abbrev Tells : String → ℕ → ℕ → Type 0
Tells status completed failed =
    ((status ≡ "success") × (failed ≡ 0))
    ⊎ (((status ≡ "partial_success") × (1 ≤ completed) × (1 ≤ failed))
        ⊎ ((status ≡ "failed") × (completed ≡ 0) × (1 ≤ failed)))

module _ (decimal : Reader) (client : HttpClient) (api_key : Option String) (db : Database)
    (organization_id slug : String) where
  -- The batches of the tenant's vehicles.
  abbrev pub tenant_batches : Session → List (List String)
  tenant_batches s =
      batch_provider_vehicle_ids (provider_ids (select_tenant_vehicles organization_id s.vehicles))
        max_vehicles_per_batch

  -- What a returned result says, of so many batches, the session before and the session after.
  pub record IsReported (batches : ℕ) (s : Session) (r : RunResult) (s' : Session) : Type 0 where
    pub parts :
        r.counters.vehicle_batches_attempted
        ≡ r.counters.vehicle_batches_completed + r.counters.vehicle_batches_failed
    pub units : r.counters.vehicle_batches_attempted ≡ r.windows_attempted * batches
    pub windows : r.counters.windows_completed + r.counters.windows_failed ≡ r.windows_attempted
    pub failures : length r.counters.failed_units ≡ r.counters.vehicle_batches_failed
    pub calls : r.counters.provider_calls_completed ≤ r.counters.provider_calls_attempted
    pub recorded :
        r.counters.records_inserted + r.counters.records_unchanged + r.counters.records_updated
        ≤ r.counters.rollups_returned
    pub stored : length s'.committed ≡ length s.committed + r.counters.records_inserted
    pub clean : s'.working ≡ s'.committed
    pub status :
        ((r.status ≡ "no_op") × (r.selected_vehicle_count ≡ 0))
        ⊎ Tells r.status r.counters.vehicle_batches_completed r.counters.vehicle_batches_failed

  -- The run was refused before anything was done: by its own checks, or by the database.
  abbrev IsRefused : Exc → Type 0
  IsRefused e = ((code : String) × (e ≡ reconciliation_error code)) ⊎ IsFault (some e)

  -- The run was broken off between two units.
  pub record IsBroken (s : Session) (e : Exc) (s' : Session) : Type 0 where
    pub unhandled : e ≡ unexpected
    pub cause : Breaks decimal client api_key db organization_id slug
    pub clean : s'.working ≡ s'.committed
    pub kept : length s.committed ≤ length s'.committed

  abbrev pub Reports : ℕ → Session → ℕ → Result RunResult × Session × ℕ → Type 0
  Reports batches s sent (ok r, s', sent') = IsReported batches s r s'
  Reports batches s sent (err e, s', sent') =
      (IsRefused e × (s' ≡ s) × (sent' ≡ sent)) ⊎ IsBroken s e s'
