-- ===== src/Utilization/Production/Run.antt =====
-- What a whole run of
-- chief-of-staff/backend/app/motive/vehicle_utilization_production_ingestion.py leaves behind.
use polaris_lab.Base.{ℕ, String, Option, refl, inl}
use polaris_lab.Outcome.{Exc, Result, ok, err}
use polaris_lab.Utilization.Rollup.{Date}
use polaris_lab.Utilization.Production.Lock.{World, freed}
use polaris_lab.Utilization.Production.Traces.{checkpoint_in, IsRecorded}
use polaris_lab.Utilization.Production.Ends.{ingest-RecordedFrom}
use polaris_lab.Utilization.Production.Exclusion.{IsEntered, IsQuiet, with_run_lock-holds}
use polaris_lab.Utilization.Production.Reports.{IngestionResult}
use polaris_lab.Utilization.Production.{Services, ingest, after_context, run}

module _ (services : Services) (organization_id slug : String) (last_day : Date)
    (started_at completed_at : ℕ) where
  abbrev RecordedSince : World → Result IngestionResult × World → Type 0
  RecordedSince w =
      IsRecorded services organization_id slug last_day started_at completed_at w.tables.history
        (checkpoint_in organization_id w) w.snapshots

  stopped : (e : Exc) (w w' : World) → IsEntered organization_id w w' → RecordedSince w (err e, w')
  stopped e w w' h = (h.checkpoint, h.snapshots, inl h.history)

  entered :
      (w w' : World)
      → IsEntered organization_id w w'
      → RecordedSince w (ingest services organization_id slug last_day started_at completed_at w')
  entered w w' h =
      let done =
        ingest-RecordedFrom services organization_id slug last_day started_at completed_at w' in
      rw (← h.history, ← h.checkpoint, ← h.snapshots) done

  freed-RecordedSince :
      (w : World) (r : Result IngestionResult) (w' : World)
      → RecordedSince w (r, w')
      → RecordedSince w (r, freed organization_id w')
  freed-RecordedSince w (ok r) w' h = h
  freed-RecordedSince w (err e) w' h = h

  after_context-RecordedSince :
      (w : World) (res : Result (Unit {0}))
      → IsQuiet services.refused
      → RecordedSince w
          (after_context services organization_id slug last_day started_at completed_at w res)
  after_context-RecordedSince w (err e) quiet = (refl, refl, inl refl)
  after_context-RecordedSince w (ok _) quiet =
      with_run_lock-holds {T = IngestionResult} organization_id slug services.refused
        services.row_lock services.lock_crash
        (ingest services organization_id slug last_day started_at completed_at) w (RecordedSince w)
        (RecordedSince w) (λ e w' h. stopped e w w' h) (λ w' h. entered w w' h) quiet
        (λ r w' h. freed-RecordedSince w r w' h) (λ e o. (refl, refl, inl refl))
        (refl, refl, inl refl)

  -- A run that returned has added one row to the history, with its counters and its status, and the
  -- organization's checkpoint moved to the last day exactly if the run was a success; a snapshot of the
  -- key figures is requested at most once, only after a success, and is based on that row. A run that
  -- raised left the checkpoint and the snapshots as they were, and added at most one row, which tells
  -- of no advance. This is for a session of the lock that closes without an exception.
  pub run-IsRecorded :
      (enabled : Option String) (w : World)
      → IsQuiet services.refused
      → IsRecorded services organization_id slug last_day started_at completed_at w.tables.history
          (checkpoint_in organization_id w)
          w.snapshots
          (run services organization_id slug last_day started_at completed_at enabled w)
  unfolding run
  run-IsRecorded enabled w quiet = after_context-RecordedSince w _ quiet
