-- ===== src/Dispatch/Ingest.antt =====
-- `ingest_torqueai_dispatches` of chief-of-staff/backend/app/connectors/torqueai_ingestion.py: once all is
-- fetched, a single transaction writes the batch; a failure is recorded in the run alone. Parameters are
-- the connector, what the database refuses, and what the parts before need.
use polaris_lab.Base.{
  ℕ, String, Bool, true, false, ◌&&◌, not, Option, none, some, List, ◌==◌, if◌then◌else◌,
}
use polaris_lab.Python.Decimal.{Decimal}
use polaris_lab.Dispatch.Call.{
  Fault, connector_fault, ingestion_fault, other_fault, Call, raised, returned, raise_if,
}
use polaris_lab.Dispatch.Connector.{DispatchPage}
use polaris_lab.Dispatch.Normalize.{NormalizedDispatch, ingestion_failure}
use polaris_lab.Dispatch.Tables.{
  sync_claimed, sync_failed, SyncRun, DispatchTables, DispatchSession, roll_back, find_run,
}
use polaris_lab.Dispatch.Persist.{RunCounts, Ingestion, with_result, stage_success}
use polaris_lab.Dispatch.Fetch.{
  validate_range, FetchProgress, counts_of, Fetched, Connector, fetch_all,
}

-- Which transactions the database refuses with an SQLAlchemyError: the query for the claimed run, the
-- write of a batch and the record of a failure.
pub record Refusals : Type 0 where
  pub refuses_load : DispatchTables → Bool
  pub refuses_write : DispatchTables → Bool
  pub refuses_record : DispatchTables → Bool

abbrev pub is_claim : Ingestion → SyncRun → Bool
is_claim call r =
    elim r.status [ sync_claimed ↦ true | _ ↦ false ]
    && elim r.trigger_slot [ none ↦ false | some slot ↦ true ]
    && r.requested_from == call.date_from
    && r.requested_to == call.date_to

module _ (db : Refusals) (column : Decimal → Decimal) where
  abbrev pub claim_of : Ingestion → Option SyncRun → Call (Unit {0})
  claim_of call none = raised (ingestion_failure "invalid_scheduled_claim")
  claim_of call (some r) =
      raise_if (not (is_claim call r)) (ingestion_failure "invalid_scheduled_claim")

  -- `_load_claimed_run`; the session is rolled back where it raises.
  abbrev pub load_claimed_run : Ingestion → String → DispatchTables → Call (Unit {0})
  load_claimed_run call run_id tables =
      if db.refuses_load tables
      then raised (ingestion_failure "database_write_failed")
      else claim_of call (find_run call.organization_id run_id tables.runs)

  -- `_record_failed_run`: a new transaction, after the session is rolled back.
  unfoldable pub record_failed_run :
      Ingestion → FetchProgress → String → DispatchSession → DispatchSession
  record_failed_run call p code s =
      let staged = record s.committed {
        runs =
            with_result call sync_failed (counts_of p) (some code) call.failed_at s.committed.runs;
      } in
      if db.refuses_record staged
      then roll_back s
      else record { committed = staged; working = staged }

  -- The handlers of the first `try`.
  abbrev pub handle_fetch :
      Ingestion → FetchProgress → Fault → DispatchSession → Call RunCounts × DispatchSession
  handle_fetch call p (connector_fault code status) s =
      (raised (ingestion_fault code status), record_failed_run call p code s)
  handle_fetch call p (ingestion_fault code status) s =
      (raised (ingestion_fault code status), record_failed_run call p code s)
  handle_fetch call p other_fault s = (raised other_fault, s)

  abbrev pub record_write :
      Ingestion → FetchProgress → DispatchSession → Option String → DispatchSession
  record_write call p s none = roll_back s
  record_write call p s (some run_id) =
      record_failed_run call p "database_write_failed" (roll_back s)

  -- The handler of the second `try`.
  abbrev handle_write :
      Ingestion → FetchProgress → DispatchSession → Call RunCounts × DispatchSession
  handle_write call p s = (
    raised (ingestion_failure "database_write_failed"),
    record_write call p s call.claimed_run_id,
  )

  -- The body of the second `try`.
  abbrev pub write_batch :
      Ingestion
      → FetchProgress
      → List NormalizedDispatch
      → DispatchSession
      → Call RunCounts × DispatchSession
  write_batch call p items s =
      let (staged, counted) = stage_success column call (counts_of p) items s.working in
      if db.refuses_write staged
      then handle_write call p s
      else (returned counted, record { committed = staged; working = staged })

  abbrev pub after_items :
      Ingestion
      → FetchProgress
      → DispatchSession
      → Call (List NormalizedDispatch)
      → Call RunCounts × DispatchSession
  after_items call p s (raised e) = handle_fetch call p e s
  after_items call p s (returned items) = write_batch call p items s

  abbrev after_fetch : Ingestion → Fetched → DispatchSession → Call RunCounts × DispatchSession
  after_fetch call f s = after_items call f.progress s f.items

  module _ (normalize : List DispatchPage → Call (List NormalizedDispatch))
      (fetch : Connector) where
    -- The run from the point where the connector is there.
    abbrev pub ingest_pages :
        Ingestion → DispatchSession → ℕ → (Call RunCounts × DispatchSession) × ℕ
    ingest_pages call s sent =
        let f = fetch_all normalize fetch call.date_from call.date_to sent in
        (after_fetch call f s, f.sent)

    abbrev pub after_load :
        Ingestion → DispatchSession → ℕ → Call (Unit {0}) → (Call RunCounts × DispatchSession) × ℕ
    after_load call s sent (raised e) = ((raised e, roll_back s), sent)
    after_load call s sent (returned _) = ingest_pages call s sent

    abbrev pub ingest_claimed :
        Ingestion → DispatchSession → ℕ → Option String → (Call RunCounts × DispatchSession) × ℕ
    ingest_claimed call s sent none = ingest_pages call s sent
    ingest_claimed call s sent (some run_id) =
        after_load call s sent (load_claimed_run call run_id s.working)

    abbrev pub ingest_checked :
        Ingestion → DispatchSession → ℕ → Call (Unit {0}) → (Call RunCounts × DispatchSession) × ℕ
    ingest_checked call s sent (raised e) = ((raised e, s), sent)
    ingest_checked call s sent (returned _) = ingest_claimed call s sent call.claimed_run_id

    -- `ingest_torqueai_dispatches`
    unfoldable pub ingest_dispatches :
        Ingestion → DispatchSession → ℕ → (Call RunCounts × DispatchSession) × ℕ
    ingest_dispatches call s sent =
        ingest_checked call s sent (validate_range call.date_from call.date_to)
