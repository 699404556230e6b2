-- ===== src/Utilization/Production/Held.antt =====
-- Which process locks a run of
-- chief-of-staff/backend/app/motive/vehicle_utilization_production_ingestion.py leaves taken.
use polaris_lab.Base.{
  ℕ, String, Bool, true, false, Option, none, some, List, ◌∷◌, str_eq_refl, if◌then◌else◌, ◌≡◌,
  refl, ◌∙◌, ap, inl, inr, Bool-cases,
}
use polaris_lab.Outcome.{
  Exc, connector_error, parse_error, pagination_error, writer_error, reconciliation_error,
  production_error, integrity_error, sqlalchemy_error, unexpected, out_of_fuel, Result, ok, err,
  ◌>>◌,
}
use polaris_lab.Utilization.Rollup.{Date}
use polaris_lab.Utilization.Writer.{raise_fault}
use polaris_lab.Utilization.Production.Select.{day_windows, select_provider_vehicle_ids}
use polaris_lab.Utilization.Writer.Store.{Session}
use polaris_lab.Utilization.Production.Ledger.{
  Snapshot, Report, Tables, open_session, read_vehicles, is_success, checkpoint_snapshot,
}
use polaris_lab.Utilization.Production.Lock.{World, release}
use polaris_lab.Utilization.Production.Days.{Progress}
use polaris_lab.Utilization.Production.Exclusion.{IsQuiet, with_run_lock-holds}
use polaris_lab.Utilization.Production.Reports.{
  IngestionResult, preflight_report, broken_report, final_report,
}
use polaris_lab.Utilization.Production.{
  Services, with_progress, record_run, request_snapshot, history_id, raise_after, after_record,
  after_days, over_budget, ingest_days, after_select, after_snapshot, ingest, after_context, run,
}

request_snapshot-held :
    (found : Option ℕ) (day : Date) (w : World) → (request_snapshot found day w).held ≡ w.held
request_snapshot-held none day w = refl
request_snapshot-held (some id) day w = refl

choice-held :
    (b : Bool) (found : Option ℕ) (day : Date) (w : World)
    → (if b then request_snapshot found day w else w).held ≡ w.held
choice-held true found day w = request_snapshot-held found day w
choice-held false found day w = refl

-- The process locks that are taken after a call.
abbrev pub held_after : Result IngestionResult × World → List String
held_after (r, w) = w.held

raise_after-held :
    (e : Exc) (w : World) (res : Result (Bool × Bool) × Tables × Session)
    → held_after (raise_after e w res) ≡ w.held
raise_after-held e w (err e', tables, s) = refl
raise_after-held e w (ok flags, tables, s) = refl

pub release_own :
    (organization_id : String) (held : List String)
    → release organization_id (organization_id ∷ held) ≡ held
unfolding release
release_own organization_id held = rw (str_eq_refl organization_id) refl

module _ (services : Services) (organization_id slug : String) (last_day : Date)
    (started_at completed_at : ℕ) where
  after_record-held :
      (report : Report) (w : World) (res : Result (Bool × Bool) × Tables × Session)
      → held_after
          (after_record services organization_id slug last_day started_at completed_at report w res)
        ≡ w.held
  after_record-held report w (err e, tables, s) = refl
  after_record-held report w (ok flags, tables, s) =
      choice-held (is_success report.result_status)
        (history_id services organization_id slug last_day started_at completed_at tables) last_day
        (record w { tables = tables; session = s })

  after_days-held :
      (ids : List String) (windows : List Date) (before : Snapshot) (w : World)
      (res : Result (Unit {0}) × Progress)
      → held_after (
          after_days services organization_id slug last_day started_at completed_at ids windows
            before w res)
        ≡ w.held
  after_days-held ids windows before w (ok _, st) =
      after_record-held (final_report ids windows st) (with_progress st w) (
        record_run services organization_id slug last_day started_at completed_at
          (final_report ids windows st) before (with_progress st w))
  after_days-held ids windows before w (err e, st) =
      raise_after-held (production_error "unexpected_error") (with_progress st w) (
        record_run services organization_id slug last_day started_at completed_at
          (broken_report ids st) before (with_progress st w))

  ingest_days-held :
      (ids : List String) (windows : List Date) (before : Snapshot) (w : World)
      → held_after (
          ingest_days services organization_id slug last_day started_at completed_at ids windows
            before w)
        ≡ w.held
  unfolding ingest_days
  ingest_days-held ids windows before w =
      elim (Bool-cases
        (over_budget services organization_id slug last_day started_at completed_at windows)) [
          | inl h ↦ rw h refl
          | inr h ↦ rw h (after_days-held ids windows before w _)
        ]

  after_select-held :
      (before : Snapshot) (w : World) (res : Result (List String))
      → held_after
          (after_select services organization_id slug last_day started_at completed_at before w res)
        ≡ w.held
  after_select-held before w (ok ids) = ingest_days-held ids (day_windows last_day) before w
  after_select-held before w (err (production_error code)) =
      raise_after-held (production_error code) w (
        record_run services organization_id slug last_day started_at completed_at
          (preflight_report code) before w)
  after_select-held before w (err (connector_error _)) = refl
  after_select-held before w (err (parse_error _)) = refl
  after_select-held before w (err (pagination_error _)) = refl
  after_select-held before w (err (writer_error _)) = refl
  after_select-held before w (err (reconciliation_error _)) = refl
  after_select-held before w (err integrity_error) = refl
  after_select-held before w (err sqlalchemy_error) = refl
  after_select-held before w (err unexpected) = refl
  after_select-held before w (err out_of_fuel) = refl

  after_snapshot-held :
      (w : World) (res : Result (Unit {0}))
      → held_after
          (after_snapshot services organization_id slug last_day started_at completed_at w res)
        ≡ w.held
  after_snapshot-held w (err e) = refl
  after_snapshot-held w (ok _) =
      after_select-held (checkpoint_snapshot organization_id w.tables) w (
        raise_fault (services.refused read_vehicles w.tables)
        >> select_provider_vehicle_ids organization_id w.session.vehicles)

  pub ingest-held :
      (w : World)
      → held_after (ingest services organization_id slug last_day started_at completed_at w)
        ≡ w.held
  unfolding ingest
  ingest-held w = after_snapshot-held w _

  after_context-held :
      (w : World) (res : Result (Unit {0}))
      → IsQuiet services.refused
      → services.refused open_session w.tables ≡ none
      → held_after
          (after_context services organization_id slug last_day started_at completed_at w res)
        ≡ w.held
  after_context-held w (err e) quiet opens = refl
  after_context-held w (ok _) quiet opens =
      with_run_lock-holds {T = IngestionResult} organization_id slug services.refused
        services.row_lock services.lock_crash
        (ingest services organization_id slug last_day started_at completed_at) w
        (λ res. held_after res ≡ organization_id ∷ w.held) (λ res. held_after res ≡ w.held)
        (λ e w' h. h.held) (λ w' h. ingest-held w' ∙ h.held) quiet
        (λ r w' h. ap (release organization_id) h ∙ release_own organization_id w.held) (λ e o. cc)
        refl

  -- A run leaves exactly the process locks taken that were taken before, however it ends, when the
  -- session of the lock is opened and closed without an exception.
  pub run-held :
      (enabled : Option String) (w : World)
      → IsQuiet services.refused
      → services.refused open_session w.tables ≡ none
      → held_after (run services organization_id slug last_day started_at completed_at enabled w)
        ≡ w.held
  unfolding run
  run-held enabled w quiet opens = after_context-held w _ quiet opens
