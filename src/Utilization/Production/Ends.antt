-- ===== src/Utilization/Production/Ends.antt =====
-- What a run of chief-of-staff/backend/app/motive/vehicle_utilization_production_ingestion.py records,
-- once it holds its lock.
use polaris_lab.Base.{ℕ, String, Bool, List, ◌==◌, refl, inl, inr, Bool-cases}
use polaris_lab.Outcome.{
  connector_error, parse_error, pagination_error, writer_error, reconciliation_error,
  production_error, integrity_error, sqlalchemy_error, unexpected, out_of_fuel, Result, ok, err,
}
use polaris_lab.Utilization.Rollup.{Date}
use polaris_lab.Utilization.Writer.Store.{Session}
use polaris_lab.Utilization.Production.Ledger.{Snapshot, Report, Tables}
use polaris_lab.Utilization.Production.Select.{day_windows}
use polaris_lab.Utilization.Production.Lock.{World}
use polaris_lab.Utilization.Production.Days.{Progress}
use polaris_lab.Utilization.Production.Recorded.{persist-Persists}
use polaris_lab.Utilization.Production.Reports.{preflight_report, broken_report, final_report}
use polaris_lab.Utilization.Production.{
  Services, with_progress, after_record, after_days, over_budget, ingest_days, after_select,
  after_snapshot, ingest,
}
use polaris_lab.Utilization.Production.Traces.{
  broken_no_success, RecordedFrom, PersistsRun, raise_after-RecordedFrom, recorded_with,
}

module _ (services : Services) (organization_id slug : String) (last_day : Date)
    (started_at completed_at : ℕ) where
  after_record-RecordedFrom :
      (w : World) (report : Report) (before : Snapshot)
      (res : Result (Bool × Bool) × Tables × Session)
      → PersistsRun services organization_id slug last_day started_at completed_at report before w
          res
      → RecordedFrom services organization_id slug last_day started_at completed_at w
          (after_record services organization_id slug last_day started_at completed_at report w res)
  after_record-RecordedFrom w report before (err e, tables, s) (same, left) =
      rw same (refl, refl, inl refl)
  after_record-RecordedFrom w report before (ok flags, tables, s) (new, both, left) =
      rw (new, both)
        (recorded_with services organization_id slug last_day started_at completed_at
          report.result_status report before w s)

  after_days-RecordedFrom :
      (ids : List String) (windows : List Date) (before : Snapshot) (w : World)
      (res : Result (Unit {0}) × Progress)
      → RecordedFrom services organization_id slug last_day started_at completed_at w (
          after_days services organization_id slug last_day started_at completed_at ids windows
            before w res)
  after_days-RecordedFrom ids windows before w (ok _, st) =
      after_record-RecordedFrom (with_progress st w) (final_report ids windows st) before _ (
        persist-Persists organization_id slug started_at completed_at services.next_history_id
          services.refused (final_report ids windows st) before last_day w.tables st.session)
  after_days-RecordedFrom ids windows before w (err e, st) =
      raise_after-RecordedFrom services organization_id slug last_day started_at completed_at
        (production_error "unexpected_error") (with_progress st w) (broken_report ids st) before _
        (broken_no_success (st.tally.windows_completed == 0))
        (persist-Persists organization_id slug started_at completed_at services.next_history_id
          services.refused (broken_report ids st) before last_day w.tables st.session)

  ingest_days-RecordedFrom :
      (ids : List String) (windows : List Date) (before : Snapshot) (w : World)
      → RecordedFrom services organization_id slug last_day started_at completed_at w (
          ingest_days services organization_id slug last_day started_at completed_at ids windows
            before w)
  unfolding ingest_days
  ingest_days-RecordedFrom ids windows before w =
      elim (Bool-cases
        (over_budget services organization_id slug last_day started_at completed_at windows)) [
          | inl h ↦ rw h (refl, refl, inl refl)
          | inr h ↦ rw h (after_days-RecordedFrom ids windows before w _)
        ]

  after_select-RecordedFrom :
      (before : Snapshot) (w : World) (res : Result (List String))
      → RecordedFrom services organization_id slug last_day started_at completed_at w
          (after_select services organization_id slug last_day started_at completed_at before w res)
  after_select-RecordedFrom before w (ok ids) =
      ingest_days-RecordedFrom ids (day_windows last_day) before w
  after_select-RecordedFrom before w (err (production_error code)) =
      raise_after-RecordedFrom services organization_id slug last_day started_at completed_at
        (production_error code) w (preflight_report code) before _ refl
        (persist-Persists organization_id slug started_at completed_at services.next_history_id
          services.refused (preflight_report code) before last_day w.tables w.session)
  after_select-RecordedFrom before w (err (connector_error _)) = (refl, refl, inl refl)
  after_select-RecordedFrom before w (err (parse_error _)) = (refl, refl, inl refl)
  after_select-RecordedFrom before w (err (pagination_error _)) = (refl, refl, inl refl)
  after_select-RecordedFrom before w (err (writer_error _)) = (refl, refl, inl refl)
  after_select-RecordedFrom before w (err (reconciliation_error _)) = (refl, refl, inl refl)
  after_select-RecordedFrom before w (err integrity_error) = (refl, refl, inl refl)
  after_select-RecordedFrom before w (err sqlalchemy_error) = (refl, refl, inl refl)
  after_select-RecordedFrom before w (err unexpected) = (refl, refl, inl refl)
  after_select-RecordedFrom before w (err out_of_fuel) = (refl, refl, inl refl)

  after_snapshot-RecordedFrom :
      (w : World) (res : Result (Unit {0}))
      → RecordedFrom services organization_id slug last_day started_at completed_at w
          (after_snapshot services organization_id slug last_day started_at completed_at w res)
  after_snapshot-RecordedFrom w (err e) = (refl, refl, inl refl)
  after_snapshot-RecordedFrom w (ok _) = after_select-RecordedFrom _ w _

  pub ingest-RecordedFrom :
      (w : World)
      → RecordedFrom services organization_id slug last_day started_at completed_at w
          (ingest services organization_id slug last_day started_at completed_at w)
  unfolding ingest
  ingest-RecordedFrom w = after_snapshot-RecordedFrom w _
