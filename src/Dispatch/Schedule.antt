-- ===== src/Dispatch/Schedule.antt =====
-- `run_scheduled_torqueai_dispatch_sync` of chief-of-staff/backend/app/connectors/torqueai_scheduler.py: a
-- trigger claims the slot of its hour in a transaction of its own, before the provider is asked, and then
-- ingests the last seven days under that claim. Parameters are the ingestion, the table of organizations
-- and which statements the database refuses. The text of a slot is the number of its hour since 1970.
use polaris_lab.Base.{ℕ, String, Bool, ◌||◌, Option, none, some, List, [], ◌∷◌, ◌++◌, if◌then◌else◌}
use polaris_lab.Python.Text.{is_empty}
use polaris_lab.Backfill.Tables.{Organization}
use polaris_lab.Dispatch.Call.{
  connector_fault, ingestion_fault, other_fault, Call, raised, returned,
}
use polaris_lab.Dispatch.Request.{setting}
use polaris_lab.Dispatch.Tables.{sync_claimed, SyncRun, DispatchTables, DispatchSession, roll_back}
use polaris_lab.Dispatch.Persist.{torqueai_ingest_page_size, RunCounts, Ingestion}
use polaris_lab.Dispatch.Slots.{
  ScheduledResult, SlotWindow, Sync, Trigger, Trouble, already_claimed_result, disabled_result,
  escaped, executed_result, failed_result, find_active, has_run_id, has_slot,
  scheduled_sync_enabled, slot_and_window, stopped, sync_error, synced, validate_scope,
}

-- Which statements the database refuses with an SQLAlchemyError that is no IntegrityError: the query for the
-- organization, the transaction of a claim, and the query for the run of a slot.
pub record ClaimRefusals : Type 0 where
  pub refuses_lookup : DispatchTables → Bool
  pub refuses_claim : DispatchTables → Bool
  pub refuses_verify : DispatchTables → Bool

-- How far a trigger comes before the ingestion.
pub data Stage : Type 0 where
  early : ScheduledResult → Stage
  under_claim : Organization → SlotWindow → String → Stage

abbrev claim_failed : Trouble
claim_failed = sync_error "scheduler_dispatch_claim_failed"

-- The row of a claim.
abbrev pub claimed_row : Trigger → String → SlotWindow → SyncRun
claimed_row t organization_id w = record {
  run_id = t.drawn_run_id;
  organization_id = organization_id;
  requested_from = w.first_day;
  requested_to = w.last_day;
  page_size = torqueai_ingest_page_size;
  status = sync_claimed;
  trigger_slot = some w.slot;
  pages_fetched = 0;
  provider_total_count = none;
  rows_validated = 0;
  rows_inserted = 0;
  rows_updated = 0;
  rows_unchanged = 0;
  error_code = none;
  started_at = t.started_at;
  completed_at = none;
}

-- The row breaks a unique constraint of TorqueAIDispatchSyncRun.
abbrev pub is_duplicate : SyncRun → ℕ → List SyncRun → Bool
is_duplicate r slot runs = has_run_id r.run_id runs || has_slot r.organization_id slot runs

module _ (db : ClaimRefusals) where
  -- The handler of the IntegrityError, after the rollback.
  abbrev pub after_duplicate : String → ℕ → DispatchSession → Sync (Option String) × DispatchSession
  after_duplicate organization_id slot s =
      if db.refuses_verify s.working
      then (stopped claim_failed, roll_back s)
      else if has_slot organization_id slot s.working.runs
      then (synced none, s)
      else (stopped claim_failed, s)

  -- `_claim_scheduled_run`
  unfoldable pub claim_scheduled_run :
      Trigger → String → SlotWindow → DispatchSession → Sync (Option String) × DispatchSession
  claim_scheduled_run t organization_id w s =
      let row = claimed_row t organization_id w in
      let staged = record s.working { runs = s.working.runs ++ row ∷ [] } in
      if db.refuses_claim staged
      then (stopped claim_failed, roll_back s)
      else if is_duplicate row w.slot s.working.runs
      then after_duplicate organization_id w.slot (roll_back s)
      else (synced (some t.drawn_run_id), record { committed = staged; working = staged })

  module _ (organizations : List Organization) where
    abbrev pub found_organization : Option Organization → Sync Organization
    found_organization none = stopped (sync_error "organization_not_found")
    found_organization (some o) = synced o

    -- `resolve_scheduled_organization`
    unfoldable pub resolve_scheduled_organization :
        Option String → DispatchSession → Sync Organization × DispatchSession
    resolve_scheduled_organization configured s =
        if is_empty (setting configured)
        then (stopped (sync_error "missing_organization_configuration"), s)
        else if db.refuses_lookup s.working
        then (stopped (sync_error "organization_lookup_failed"), roll_back s)
        else (found_organization (find_active (setting configured) organizations), s)

    abbrev pub after_claim : Organization → SlotWindow → Sync (Option String) → Sync Stage
    after_claim o w (stopped e) = stopped e
    after_claim o w (synced none) = synced (early (already_claimed_result w))
    after_claim o w (synced (some run_id)) = synced (under_claim o w run_id)

    abbrev after_scope :
        Trigger
        → Organization
        → SlotWindow
        → DispatchSession
        → Sync (Unit {0})
        → Sync Stage × DispatchSession
    after_scope t o w s (stopped e) = (stopped e, s)
    after_scope t o w s (synced _) =
        let (claim, s') = claim_scheduled_run t o.id w s in (after_claim o w claim, s')

    abbrev pub after_organization :
        Trigger → SlotWindow → DispatchSession → Sync Organization → Sync Stage × DispatchSession
    after_organization t w s (stopped e) = (stopped e, s)
    after_organization t w s (synced o) =
        after_scope t o w s (validate_scope t.connector_slug o.slug)

    abbrev pub after_resolve :
        Trigger → SlotWindow → Sync Organization × DispatchSession → Sync Stage × DispatchSession
    after_resolve t w (found, s) = after_organization t w s found

    abbrev after_window : Trigger → DispatchSession → Sync SlotWindow → Sync Stage × DispatchSession
    after_window t s (stopped e) = (stopped e, s)
    after_window t s (synced w) =
        if scheduled_sync_enabled t.enabled
        then after_resolve t w (resolve_scheduled_organization t.scheduled_slug s)
        else (synced (early (disabled_result w)), s)

    -- A trigger up to its claim.
    unfoldable pub prepare_run : Trigger → DispatchSession → Sync Stage × DispatchSession
    prepare_run t s = after_window t s (slot_and_window t.timestamp)

    abbrev pub ingestion_of : Trigger → Organization → SlotWindow → String → Ingestion
    ingestion_of t o w run_id = record {
      organization_id = o.id;
      organization_slug = o.slug;
      date_from = w.first_day;
      date_to = w.last_day;
      claimed_run_id = some run_id;
      drawn_run_id = run_id;
      started_at = t.started_at;
      observed_at = t.observed_at;
      completed_at = t.completed_at;
      failed_at = t.failed_at;
    }

    -- `int(result["provider_total_count"])` raises without a total.
    abbrev pub executed : SlotWindow → RunCounts → Option ℕ → Sync ScheduledResult
    executed w c none = stopped (escaped other_fault)
    executed w c (some total) = synced (executed_result w c)

    abbrev pub after_ingestion : SlotWindow → Call RunCounts → Sync ScheduledResult
    after_ingestion w (raised (ingestion_fault code status)) = synced (failed_result w code)
    after_ingestion w (raised (connector_fault code status)) =
        stopped (escaped (connector_fault code status))
    after_ingestion w (raised other_fault) = stopped (escaped other_fault)
    after_ingestion w (returned c) = executed w c c.provider_total_count

    module _
        (ingest : Ingestion → DispatchSession → ℕ → (Call RunCounts × DispatchSession) × ℕ) where
      abbrev pub after_stage :
          Trigger → DispatchSession → ℕ → Sync Stage → (Sync ScheduledResult × DispatchSession) × ℕ
      after_stage t s sent (stopped e) = ((stopped e, s), sent)
      after_stage t s sent (synced (early r)) = ((synced r, s), sent)
      after_stage t s sent (synced (under_claim o w run_id)) =
          let r = ingest (ingestion_of t o w run_id) s sent in
          ((after_ingestion w r.0.0, r.0.1), r.1)

      -- `run_scheduled_torqueai_dispatch_sync`
      unfoldable pub run_scheduled :
          Trigger → DispatchSession → ℕ → (Sync ScheduledResult × DispatchSession) × ℕ
      run_scheduled t s sent = let (stage, s') = prepare_run t s in after_stage t s' sent stage
