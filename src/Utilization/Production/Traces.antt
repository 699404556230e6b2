-- ===== src/Utilization/Production/Traces.antt =====
-- What a run leaves in the tables once its record is persisted,
-- chief-of-staff/backend/app/motive/vehicle_utilization_production_ingestion.py.
use polaris_lab.Base.{
  ℕ, String, Bool, true, false, Option, none, some, List, [], ◌∷◌, ◌++◌, str_eq_refl, if◌then◌else◌,
  ◌≡◌, refl, ap, ◌⊎◌, inl, inr, arith,
}
use polaris_lab.Outcome.{Exc, Result, ok, err}
use polaris_lab.Utilization.Rollup.{Date}
use polaris_lab.Utilization.Writer.Store.{Session}
use polaris_lab.Utilization.Production.Ledger.{
  checkpoint_resource, Checkpoint, Snapshot, RunStatus, success, partial_success, failed, Report,
  History, Tables, read_history, checkpoint_of, is_success, history_status,
}
use polaris_lab.Utilization.Production.Persist.{history_row, advanced, recorded}
use polaris_lab.Utilization.Production.Lock.{World, SnapshotRequest}
use polaris_lab.Utilization.Production.Recorded.{
  Persists, checkpoint_of-advance, successful_history_id-append,
}
use polaris_lab.Utilization.Production.Reports.{IngestionResult, is_success_of}
use polaris_lab.Utilization.Production.{
  Services, raise_after, unless_refused, history_id, after_record,
}

abbrev report_of : IngestionResult → Report
report_of r = record {
  result_status = r.status;
  selected_vehicle_count = r.selected_vehicle_count;
  windows_attempted = r.windows_attempted;
  windows_failed = r.windows_failed;
  tally = r.tally;
  failed_units = r.failed_units;
}

abbrev pub checkpoint_in : String → World → Option Checkpoint
checkpoint_in organization_id w =
    checkpoint_of organization_id checkpoint_resource w.tables.checkpoints

pub broken_no_success : (b : Bool) → is_success (if b then failed else partial_success) ≡ false
broken_no_success true = refl
broken_no_success false = refl

module _ (services : Services) (organization_id slug : String) (last_day : Date)
    (started_at completed_at : ℕ) where
  abbrev pub checkpoint_after : RunStatus → Option Checkpoint → Option Checkpoint
  checkpoint_after success before = some (
      advanced organization_id slug started_at completed_at services.next_history_id
        services.refused last_day)
  checkpoint_after _ before = before

  -- A run that returned has added one history row, with its counters and its status, and the checkpoint
  -- moved exactly if it was a success; a snapshot is based on that row. A run that raised left the
  -- checkpoint where it was, and added one row at most, which claims no success.
  abbrev pub IsRecorded :
      List History
      → Option Checkpoint
      → List SnapshotRequest
      → Result IngestionResult × World
      → Type 0
  IsRecorded rows before snapshots (ok r, w) =
      (h : History) × (w.tables.history ≡ rows ++ h ∷ [])
      × (h.resource_counts ≡ report_of r)
      × (h.status ≡ history_status r.status)
      × (r.checkpoint_advanced ≡ is_success r.status)
      × (checkpoint_in organization_id w ≡ checkpoint_after r.status before)
      × ((w.snapshots ≡ snapshots)
          ⊎ ((r.status ≡ success)
              × (w.snapshots
                  ≡ snapshots ++ record { source_history_id = h.id; window_end = last_day } ∷ [])))
  IsRecorded rows before snapshots (err e, w) =
      (checkpoint_in organization_id w ≡ before)
      × (w.snapshots ≡ snapshots)
      × ((w.tables.history ≡ rows)
          ⊎ ((h : History) × (w.tables.history ≡ rows ++ h ∷ []) × (h.checkpoint_advanced ≡ false)))

  abbrev pub RecordedFrom : World → Result IngestionResult × World → Type 0
  RecordedFrom w = IsRecorded w.tables.history (checkpoint_in organization_id w) w.snapshots

  abbrev pub PersistsRun :
      Report → Snapshot → World → Result (Bool × Bool) × Tables × Session → Type 0
  PersistsRun report before w =
      Persists organization_id slug started_at completed_at services.next_history_id
        services.refused report before last_day w.tables w.session

  abbrev tables_after : Report → Snapshot → World → Tables
  tables_after report before w =
      recorded organization_id slug started_at completed_at services.next_history_id
        services.refused report before last_day w.tables

  abbrev row_of : Report → Snapshot → World → History
  row_of report before w =
      history_row organization_id slug started_at completed_at services.next_history_id
        services.refused report before last_day w.tables.history

  -- A report of no success.
  recorded_no_success :
      (w : World) (report : Report) (before : Snapshot)
      → is_success report.result_status ≡ false
      → ((tables_after report before w).checkpoints ≡ w.tables.checkpoints)
        × ((row_of report before w).checkpoint_advanced ≡ false)
  recorded_no_success w report before h = (rw h refl, h)

  pub raise_after-RecordedFrom :
      (e : Exc) (w : World) (report : Report) (before : Snapshot)
      (res : Result (Bool × Bool) × Tables × Session)
      → is_success report.result_status ≡ false
      → PersistsRun report before w res
      → RecordedFrom w (raise_after e w res)
  raise_after-RecordedFrom e w report before (err e', tables, s) no_success (same, left) =
      rw same (refl, refl, inl refl)
  raise_after-RecordedFrom e w report before (ok flags, tables, s) no_success (new, both, left) =
      let kept = recorded_no_success w report before no_success in
      rw new (
        ap (λ rows. checkpoint_of organization_id checkpoint_resource rows) kept.0,
        refl,
        inr (row_of report before w, refl, kept.1),
      )

  unless_refused-some :
      (lost : Option Exc) (found : Option ℕ) (n : ℕ)
      → (found ≡ none) ⊎ (found ≡ some n)
      → (unless_refused lost found ≡ none) ⊎ (unless_refused lost found ≡ some n)
  unless_refused-some none found n h = h
  unless_refused-some (some e) found n h = inl refl

  is_success_of-row :
      (report : Report) (before : Snapshot) (w : World)
      → is_success_of organization_id started_at
          (row_of (record report { result_status = success }) before w)
        ≡ true
  is_success_of-row report before w = rw (str_eq_refl organization_id) (ground arith)

  history_id-row :
      (report : Report) (before : Snapshot) (w : World)
      → (let report' : Report = record report { result_status = success } in
          let found =
            history_id services organization_id slug last_day started_at completed_at
              (tables_after report' before w) in
          (found ≡ none) ⊎ (found ≡ some (row_of report' before w).id))
  history_id-row report before w =
      let report' : Report = record report { result_status = success } in
      unless_refused-some (services.refused read_history (tables_after report' before w)) _ _ (
        successful_history_id-append organization_id started_at w.tables.history
          (row_of report' before w) (is_success_of-row report before w))

  pub recorded_with :
      (status : RunStatus) (report : Report) (before : Snapshot) (w : World) (s : Session)
      → (let report' : Report = record report { result_status = status } in
          RecordedFrom w (
            after_record services organization_id slug last_day started_at completed_at report' w
              (ok (true, is_success status), tables_after report' before w, s)))
  recorded_with partial_success report before w s = (
    row_of (record report { result_status = partial_success }) before w,
    refl,
    refl,
    refl,
    refl,
    refl,
    inl refl,
  )
  recorded_with failed report before w s = (
    row_of (record report { result_status = failed }) before w,
    refl,
    refl,
    refl,
    refl,
    refl,
    inl refl,
  )
  recorded_with success report before w s =
      let moved =
        checkpoint_of-advance organization_id slug started_at completed_at services.next_history_id
          services.refused last_day w.tables.checkpoints in
      elim (history_id-row report before w) [
        | inl lost ↦ rw lost (
          row_of (record report { result_status = success }) before w,
          refl,
          refl,
          refl,
          refl,
          moved,
          inl refl,
        )
        | inr found ↦ rw found (
          row_of (record report { result_status = success }) before w,
          refl,
          refl,
          refl,
          refl,
          moved,
          inr (refl, refl),
        )
      ]
