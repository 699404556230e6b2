-- ===== src/Utilization/Production/Accounts.antt =====
-- The result of a run of
-- chief-of-staff/backend/app/motive/vehicle_utilization_production_ingestion.py against what it did.
use polaris_lab.Base.{
  ℕ, ◌+◌, ◌≤◌, String, Option, List, length, ◌≡◌, refl, inl, inr, Bool-cases, arith,
}
use polaris_lab.Outcome.{
  connector_error, parse_error, pagination_error, writer_error, reconciliation_error,
  production_error, integrity_error, sqlalchemy_error, unexpected, out_of_fuel, Result, ok, err,
}
use polaris_lab.Utilization.Rollup.{Date}
use polaris_lab.Utilization.Writer.Store.{Session, Statement, IsFault}
use polaris_lab.Utilization.Reconciliation.Units.{length-generate_day_windows}
use polaris_lab.Utilization.Production.Ledger.{Snapshot}
use polaris_lab.Utilization.Production.Select.{day_windows}
use polaris_lab.Utilization.Production.Lock.{World, freed}
use polaris_lab.Utilization.Production.Days.{first_progress}
use polaris_lab.Utilization.Production.Balance.{run_days-Ran}
use polaris_lab.Utilization.Production.Exclusion.{IsEntered, IsQuiet, with_run_lock-holds}
use polaris_lab.Utilization.Production.Reports.{IngestionResult}
use polaris_lab.Utilization.Production.{
  Services, over_budget, ingest_days, after_select, after_snapshot, ingest, after_context, run,
}
use polaris_lab.Utilization.Production.Settled.{Accounts, first_progress-IsTallied}
use polaris_lab.Utilization.Production.Records.{raise_after-Accounts, after_days-Accounts}

module _ (services : Services) (organization_id slug : String) (last_day : Date)
    (started_at completed_at : ℕ)
    (faults : (st : Statement) (s : Session) → IsFault (services.db.fault st s)) where
  abbrev AccountsSince : World → Result IngestionResult × World → Type 0
  AccountsSince w = Accounts (length w.session.committed) w.sent

  stays : (w : World) → w.sent ≤ w.sent + 7
  stays w = omega arith

  ingest_days-Accounts :
      (ids : List String) (before : Snapshot) (w : World)
      → w.session.working ≡ w.session.committed
      → AccountsSince w (
          ingest_days services organization_id slug last_day started_at completed_at ids
            (day_windows last_day)
            before
            w)
  unfolding ingest_days
  ingest_days-Accounts ids before w clean =
      elim (Bool-cases (
        over_budget services organization_id slug last_day started_at completed_at
          (day_windows last_day))) [
            | inl h ↦ rw h (stays w)
            | inr h ↦ rw h (
                after_days-Accounts services organization_id slug last_day started_at completed_at
                  faults (length w.session.committed) w.sent ids (day_windows last_day) before
                  (first_progress w.session w.sent) w _ (length-generate_day_windows 7 last_day)
                  refl
                  (run_days-Ran services.decimal services.client services.api_key services.db
                    organization_id slug ids faults (length w.session.committed) w.sent
                    (day_windows last_day) (first_progress w.session w.sent)
                    (first_progress-IsTallied w.session w.sent clean)))
          ]

  after_select-Accounts :
      (before : Snapshot) (w : World) (res : Result (List String))
      → w.session.working ≡ w.session.committed
      → AccountsSince w
          (after_select services organization_id slug last_day started_at completed_at before w res)
  after_select-Accounts before w (ok ids) clean = ingest_days-Accounts ids before w clean
  after_select-Accounts before w (err (production_error code)) clean =
      raise_after-Accounts services organization_id slug last_day started_at completed_at faults _ _
        (production_error code) w _ (stays w)
  after_select-Accounts before w (err (connector_error _)) clean = stays w
  after_select-Accounts before w (err (parse_error _)) clean = stays w
  after_select-Accounts before w (err (pagination_error _)) clean = stays w
  after_select-Accounts before w (err (writer_error _)) clean = stays w
  after_select-Accounts before w (err (reconciliation_error _)) clean = stays w
  after_select-Accounts before w (err integrity_error) clean = stays w
  after_select-Accounts before w (err sqlalchemy_error) clean = stays w
  after_select-Accounts before w (err unexpected) clean = stays w
  after_select-Accounts before w (err out_of_fuel) clean = stays w

  after_snapshot-Accounts :
      (w : World) (res : Result (Unit {0}))
      → w.session.working ≡ w.session.committed
      → AccountsSince w
          (after_snapshot services organization_id slug last_day started_at completed_at w res)
  after_snapshot-Accounts w (err e) clean = stays w
  after_snapshot-Accounts w (ok _) clean = after_select-Accounts _ w _ clean

  ingest-Accounts :
      (w w' : World)
      → IsEntered organization_id w w'
      → w.session.working ≡ w.session.committed
      → AccountsSince w (ingest services organization_id slug last_day started_at completed_at w')
  unfolding ingest
  ingest-Accounts w w' h clean =
      let clean' : w'.session.working ≡ w'.session.committed = rw h.session clean in
      rw (← h.session, ← h.sent) (after_snapshot-Accounts w' _ clean')

  freed-Accounts :
      (rows sent : ℕ) (r : Result IngestionResult) (w : World)
      → Accounts rows sent (r, w)
      → Accounts rows sent (r, freed organization_id w)
  freed-Accounts rows sent (err e) w h = h
  freed-Accounts rows sent (ok r) w h = record {
    attempted = h.attempted;
    begun = h.begun;
    ended = h.ended;
    failures = h.failures;
    read = h.read;
    answered = h.answered;
    recorded = h.recorded;
    stored = h.stored;
    requests = h.requests;
    settled = h.settled;
  }

  after_context-Accounts :
      (w : World) (res : Result (Unit {0}))
      → IsQuiet services.refused
      → w.session.working ≡ w.session.committed
      → AccountsSince w
          (after_context services organization_id slug last_day started_at completed_at w res)
  after_context-Accounts w (err e) quiet clean = stays w
  after_context-Accounts w (ok _) quiet clean =
      with_run_lock-holds {T = IngestionResult} organization_id slug services.refused
        services.row_lock services.lock_crash
        (ingest services organization_id slug last_day started_at completed_at) w (AccountsSince w)
        (AccountsSince w) (λ e w' h. rw h.sent (stays w)) (λ w' h. ingest-Accounts w w' h clean)
        quiet (λ r w' h. freed-Accounts (length w.session.committed) w.sent r w' h) (λ e o. stays w)
        (stays w)

  -- A run sends at most seven requests, however it ends. The result of a run that returned accounts
  -- for its work: seven days were attempted, each went through or is in the list of failures, the
  -- rollups of the written days are the inserted, unchanged and updated rows together, the table has
  -- grown by the inserted rows, and the status is a success exactly if all seven days went through,
  -- a partial success if some did and some did not, and a failure if none did. This is for a database
  -- that raises only its library's exceptions, a session with no pending rows, and a session of the
  -- lock that closes without an exception.
  pub run-Accounts :
      (enabled : Option String) (w : World)
      → IsQuiet services.refused
      → w.session.working ≡ w.session.committed
      → Accounts
          (length w.session.committed)
          w.sent
          (run services organization_id slug last_day started_at completed_at enabled w)
  unfolding run
  run-Accounts enabled w quiet clean = after_context-Accounts w _ quiet clean
