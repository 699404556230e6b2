-- ===== src/Dispatch/Service.antt =====
-- What the scheduler, chief-of-staff/backend/app/connectors/torqueai_scheduler.py, relies on in the ingestion
-- that it calls, and that `ingest_torqueai_dispatches` of torqueai_ingestion.py gives it.
use polaris_lab.Base.{
  String, ℕ, ◌+◌, ◌≤◌, Option, none, some, List, ◌∷◌, [], ◌++◌, ◌≡◌, refl, inl, inr,
}
use polaris_lab.Python.Decimal.{Decimal}
use polaris_lab.Dispatch.Call.{Call, raised, returned}
use polaris_lab.Dispatch.Connector.{DispatchPage}
use polaris_lab.Dispatch.Normalize.{NormalizedDispatch}
use polaris_lab.Dispatch.Tables.{change_run, SyncStatus, SyncRun, DispatchSession}
use polaris_lab.Dispatch.Persist.{RunCounts, Ingestion, new_run, set_run_result, with_result}
use polaris_lab.Dispatch.Fetch.{Connector}
use polaris_lab.Dispatch.Fetches.{IsSingle}
use polaris_lab.Dispatch.Ingest.{Refusals, ingest_dispatches}
use polaris_lab.Dispatch.Outcomes.{IsWritten, ingest-IsWritten, ingest_bound}
use polaris_lab.Dispatch.Claims.{KeepsSlots, KeepsSlots-append, KeepsSlots-change}

-- An ingestion that leaves every slot its run and sends at most ten requests.
pub record IngestionService : Type 0 where
  pub ingestion : Ingestion → DispatchSession → ℕ → (Call RunCounts × DispatchSession) × ℕ
  pub keeps :
      (call : Ingestion) (s : DispatchSession) (sent : ℕ)
      → s.working ≡ s.committed
      → KeepsSlots s.committed.runs (ingestion call s sent).0.1.committed.runs
  pub few :
      (call : Ingestion) (s : DispatchSession) (sent : ℕ) → (ingestion call s sent).1 ≤ sent + 10

put_result-KeepsSlots :
    (call : Ingestion) (status : SyncStatus) (c : RunCounts) (code : Option String) (at : ℕ)
    (runs : List SyncRun) (claimed_run_id : Option String)
    → KeepsSlots runs (elim claimed_run_id [
      | none ↦ runs ++ new_run call status c code at ∷ []
      | some run_id ↦ change_run call.organization_id run_id (set_run_result status c code at) runs
    ])
put_result-KeepsSlots call status c code at runs none =
    KeepsSlots-append runs (new_run call status c code at)
put_result-KeepsSlots call status c code at runs (some run_id) =
    KeepsSlots-change call.organization_id run_id (set_run_result status c code at) (λ o n r. refl)
      runs

with_result-KeepsSlots :
    (call : Ingestion) (status : SyncStatus) (c : RunCounts) (code : Option String) (at : ℕ)
    (runs : List SyncRun)
    → KeepsSlots runs (with_result call status c code at runs)
with_result-KeepsSlots call status c code at runs =
    put_result-KeepsSlots call status c code at runs call.claimed_run_id

module _ (column : Decimal → Decimal) where
  pub IsWritten-KeepsSlots :
      (call : Ingestion) (s : DispatchSession) (r : Call RunCounts × DispatchSession)
      → s.working ≡ s.committed
      → IsWritten column call s r
      → KeepsSlots s.committed.runs r.1.committed.runs
  IsWritten-KeepsSlots call s (raised e, s') clean (rows, states, inl same) o n h = rw same h
  IsWritten-KeepsSlots call s (raised e, s') clean (rows, states, inr (p, code, new)) o n h =
      rw new (with_result-KeepsSlots call _ _ (some code) call.failed_at s.committed.runs o n h)
  IsWritten-KeepsSlots call s (returned c, s') clean (runs, states, done) o n h =
      rw (runs, clean)
        (with_result-KeepsSlots call _ c none call.completed_at s.committed.runs o n h)

  -- The ingestion of dispatches is one.
  abbrev pub dispatch_ingestion :
      Refusals
      → (List DispatchPage → Call (List NormalizedDispatch))
      → (fetch : Connector) → IsSingle fetch
      → IngestionService
  dispatch_ingestion db normalize fetch single = record {
    ingestion = ingest_dispatches db column normalize fetch;
    keeps = λ call s sent clean.
        IsWritten-KeepsSlots call s (ingest_dispatches db column normalize fetch call s sent).0
          clean (ingest-IsWritten column db normalize fetch single call s sent);
    few = ingest_bound column db normalize fetch single;
  }
