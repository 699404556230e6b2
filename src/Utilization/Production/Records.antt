-- ===== src/Utilization/Production/Records.antt =====
-- The counters of a run while its record is persisted,
-- chief-of-staff/backend/app/motive/vehicle_utilization_production_ingestion.py.
use polaris_lab.Base.{
  ℕ, ◌+◌, ◌≤◌, String, Bool, true, false, Option, none, some, List, length, if◌then◌else◌, ◌≡◌,
  refl, ap, arith,
}
use polaris_lab.Outcome.{Exc, production_error, Result, ok, err}
use polaris_lab.Utilization.Rollup.{Date}
use polaris_lab.Utilization.Writer.Store.{Session, Statement, IsFault, commit_session}
use polaris_lab.Utilization.Production.Ledger.{Snapshot, Tables, is_success}
use polaris_lab.Utilization.Production.Lock.{World}
use polaris_lab.Utilization.Production.Days.{Progress}
use polaris_lab.Utilization.Production.Balance.{IsTallied, Ran}
use polaris_lab.Utilization.Production.Recorded.{Persists, persist-Persists}
use polaris_lab.Utilization.Production.Reports.{
  IngestionResult, final_report, result_status_of, result_of,
}
use polaris_lab.Utilization.Production.{
  Services, with_progress, request_snapshot, history_id, raise_after, after_record, after_days,
}
use polaris_lab.Utilization.Production.Settled.{Accounts, IsAccounted, settles}

module _ (services : Services) (organization_id slug : String) (last_day : Date)
    (started_at completed_at : ℕ)
    (faults : (st : Statement) (s : Session) → IsFault (services.db.fault st s)) where
  pub raise_after-Accounts :
      (rows sent : ℕ) (e : Exc) (w : World) (res : Result (Bool × Bool) × Tables × Session)
      → w.sent ≤ sent + 7
      → Accounts rows sent (raise_after e w res)
  raise_after-Accounts rows sent e w (err e', tables, s) h = h
  raise_after-Accounts rows sent e w (ok flags, tables, s) h = h

  request_snapshot-IsAccounted :
      (rows sent : ℕ) (b : Bool) (found : Option ℕ) (r : IngestionResult) (w : World)
      → IsAccounted rows sent r w
      → IsAccounted rows sent r (if b then request_snapshot found last_day w else w)
  request_snapshot-IsAccounted rows sent false found r w h = h
  request_snapshot-IsAccounted rows sent true none r w h = h
  request_snapshot-IsAccounted rows sent true (some id) r w h = record {
    attempted = h.attempted;
    begun = h.begun;
    ended = h.ended;
    failures = h.failures;
    read = h.read;
    answered = h.answered;
    recorded = h.recorded;
    stored = h.stored;
    requests = h.requests;
    settled = h.settled;
  }

  after_record-Accounts :
      (rows sent : ℕ) (ids : List String) (windows : List Date) (before : Snapshot) (st : Progress)
      (w : World) (res : Result (Bool × Bool) × Tables × Session)
      → length windows ≡ 7
      → IsTallied rows sent 0 st
      → st.tally.provider_calls_attempted ≡ 7
      → Persists organization_id slug started_at completed_at services.next_history_id
          services.refused
          (final_report ids windows st)
          before
          last_day
          w.tables
          st.session
          res
      → Accounts rows sent (
          after_record services organization_id slug last_day started_at completed_at
            (final_report ids windows st)
            (with_progress st w)
            res)
  after_record-Accounts rows sent ids windows before st w (err e, tables, s) many h all p =
      omega (arith, h.requests, all)
  after_record-Accounts rows sent ids windows before st w (ok flags, tables, s) many h all p =
      rw p.2 (
        request_snapshot-IsAccounted rows sent (is_success (result_status_of st))
          (history_id services organization_id slug last_day started_at completed_at tables)
          (result_of (final_report ids windows st) flags)
          (record (with_progress st w) { tables = tables; session = commit_session st.session })
          (record {
            attempted = many;
            begun = all;
            ended = omega (arith, h.parts, all);
            failures = refl;
            read = h.windows;
            answered = omega (arith, h.calls, all);
            recorded = h.recorded;
            stored = omega (arith, h.stored, ap length h.clean);
            requests = omega (arith, h.requests, all);
            settled = settles _ _ (omega (arith, h.parts, all));
          }))

  pub after_days-Accounts :
      (rows sent : ℕ) (ids : List String) (windows : List Date) (before : Snapshot) (st0 : Progress)
      (w : World) (res : Result (Unit {0}) × Progress)
      → length windows ≡ 7
      → st0.tally.provider_calls_attempted ≡ 0
      → Ran rows sent (length windows) st0 res
      → Accounts rows sent (
          after_days services organization_id slug last_day started_at completed_at ids windows
            before w res)
  after_days-Accounts rows sent ids windows before st0 w (ok _, st) many none_yet h =
      after_record-Accounts rows sent ids windows before st w _ many h.0
        (omega (arith, h.1, many, none_yet))
        (persist-Persists organization_id slug started_at completed_at services.next_history_id
          services.refused (final_report ids windows st) before last_day w.tables st.session)
  after_days-Accounts rows sent ids windows before st0 w (err e, st) many none_yet h =
      raise_after-Accounts rows sent (production_error "unexpected_error") (with_progress st w) _
        (omega (arith, h.0.requests, h.1, many, none_yet))
