-- ===== src/Utilization/Production/Recorded.antt =====
-- What the transaction that records a run of
-- chief-of-staff/backend/app/motive/vehicle_utilization_production_ingestion.py leaves in the tables, and
-- which row the snapshot of the key figures is based on.
use polaris_lab.Base.{
  find_first-append, ◌∙◌, Option-cases, find_first, ℕ, String, Bool, true, false, ◌&&◌, Option,
  none, some, List, [], ◌∷◌, ◌++◌, str_eq, str_eq_refl, ◌≡◌, refl, ◌⊎◌, inl, inr, Bool-cases,
  eq_iff, arith,
}
use polaris_lab.Outcome.{
  Exc, connector_error, parse_error, pagination_error, writer_error, reconciliation_error,
  production_error, integrity_error, sqlalchemy_error, unexpected, out_of_fuel, Result, ok, err,
}
use polaris_lab.Utilization.Rollup.{Date}
use polaris_lab.Utilization.Writer.Store.{Session, rollback, commit_session}
use polaris_lab.Utilization.Production.Ledger.{
  checkpoint_resource, Checkpoint, Snapshot, Report, History, Tables, Access, is_checkpoint,
  checkpoint_of, is_success,
}
use polaris_lab.Utilization.Production.Persist.{advanced, advance, recorded, after_save, persist}
use polaris_lab.Utilization.Production.Reports.{
  is_success_of, successes, only_id, successful_history_id,
}

module _ (organization_id slug : String) (started_at completed_at : ℕ) (next_id : List History → ℕ)
    (refused : Access → Tables → Option Exc) where
  is_checkpoint-advanced :
      (day : Date)
      → is_checkpoint organization_id checkpoint_resource
          (advanced organization_id slug started_at completed_at next_id refused day)
        ≡ true
  unfolding is_checkpoint
  is_checkpoint-advanced day = rw (str_eq_refl organization_id) refl

  -- The organization's checkpoint after an advance.
  pub checkpoint_of-advance :
      (day : Date) (rows : List Checkpoint)
      → checkpoint_of organization_id checkpoint_resource
          (advance organization_id slug started_at completed_at next_id refused day rows)
        ≡ some (advanced organization_id slug started_at completed_at next_id refused day)
  unfolding find_first advance
  checkpoint_of-advance day [] = rw (is_checkpoint-advanced day) refl
  checkpoint_of-advance day (c ∷ rows) =
      elim (Bool-cases (is_checkpoint organization_id checkpoint_resource c)) [
        | inl h ↦ rw (h, is_checkpoint-advanced day) refl
        | inr h ↦ rw (h, h) (checkpoint_of-advance day rows)
      ]

  -- The checkpoints of other organizations, and the other rows of this one, stay as they are.
  advance_frame :
      (other name : String) (day : Date) (rows : List Checkpoint)
      → (str_eq organization_id other && str_eq checkpoint_resource name) ≡ false
      → checkpoint_of other name
          (advance organization_id slug started_at completed_at next_id refused day rows)
        ≡ checkpoint_of other name rows
  unfolding find_first advance is_checkpoint
  advance_frame other name day [] e = rw e refl
  advance_frame other name day (c ∷ rows) e = ground (
    arith,
    eq_iff c.organization_id organization_id,
    eq_iff c.provider_resource checkpoint_resource,
    advance_frame other name day rows e,
  )

  -- What a transaction leaves behind.
  abbrev pub Persists :
      Report → Snapshot → Date → Tables → Session → Result (Bool × Bool) × Tables × Session → Type 0
  Persists report before day tables s (err e, tables', s') =
      (tables' ≡ tables) × ((s' ≡ s) ⊎ (s' ≡ rollback s))
  Persists report before day tables s (ok flags, tables', s') =
      (tables'
        ≡ recorded organization_id slug started_at completed_at next_id refused report before day
            tables)
      × (flags ≡ (true, is_success report.result_status))
      × (s' ≡ commit_session s)

  after_save-Persists :
      (report : Report) (before : Snapshot) (day : Date) (tables : Tables) (s : Session)
      (res : Result (Unit {0}))
      → Persists report before day tables s (
          after_save organization_id slug started_at completed_at next_id refused report tables
            (recorded organization_id slug started_at completed_at next_id refused report before day
              tables)
            s
            res)
  after_save-Persists report before day tables s (ok _) = (refl, refl, refl)
  after_save-Persists report before day tables s (err integrity_error) = (refl, inr refl)
  after_save-Persists report before day tables s (err sqlalchemy_error) = (refl, inr refl)
  after_save-Persists report before day tables s (err (connector_error _)) = (refl, inl refl)
  after_save-Persists report before day tables s (err (parse_error _)) = (refl, inl refl)
  after_save-Persists report before day tables s (err (pagination_error _)) = (refl, inl refl)
  after_save-Persists report before day tables s (err (writer_error _)) = (refl, inl refl)
  after_save-Persists report before day tables s (err (reconciliation_error _)) = (refl, inl refl)
  after_save-Persists report before day tables s (err (production_error _)) = (refl, inl refl)
  after_save-Persists report before day tables s (err unexpected) = (refl, inl refl)
  after_save-Persists report before day tables s (err out_of_fuel) = (refl, inl refl)

  pub persist-Persists :
      (report : Report) (before : Snapshot) (day : Date) (tables : Tables) (s : Session)
      → Persists report before day tables s (
          persist organization_id slug started_at completed_at next_id refused report before day
            tables s)
  unfolding persist
  persist-Persists report before day tables s = after_save-Persists report before day tables s _

-- An anchor for the lock, or the row of another organization or resource, is no checkpoint.
pub checkpoint_of-append :
    (organization_id name : String) (rows : List Checkpoint) (c : Checkpoint)
    → is_checkpoint organization_id name c ≡ false
    → checkpoint_of organization_id name (rows ++ c ∷ []) ≡ checkpoint_of organization_id name rows
checkpoint_of-append organization_id name rows c h =
    find_first-append (is_checkpoint organization_id name) rows c
    ∙ elim (Option-cases (checkpoint_of organization_id name rows)) [
      | inl e ↦ rw (e, h) refl
      | inr (found, e) ↦ rw e refl
    ]

successes-append :
    (organization_id : String) (started_at : ℕ) (rows : List History) (h : History)
    → is_success_of organization_id started_at h ≡ true
    → successes organization_id started_at (rows ++ h ∷ [])
      ≡ successes organization_id started_at rows ++ h.id ∷ []
successes-append organization_id started_at [] h e = rw e refl
successes-append organization_id started_at (x ∷ rows) h e =
    ground (arith, successes-append organization_id started_at rows h e)

only_id-append :
    (ids : List ℕ) (n : ℕ) → (only_id (ids ++ n ∷ []) ≡ none) ⊎ (only_id (ids ++ n ∷ []) ≡ some n)
only_id-append [] n = inr refl
only_id-append (x ∷ []) n = inl refl
only_id-append (x ∷ y ∷ ids) n = inl refl

-- The history row that is found is the one that was just added.
pub successful_history_id-append :
    (organization_id : String) (started_at : ℕ) (rows : List History) (h : History)
    → is_success_of organization_id started_at h ≡ true
    → (successful_history_id organization_id started_at (rows ++ h ∷ []) ≡ none)
      ⊎ (successful_history_id organization_id started_at (rows ++ h ∷ []) ≡ some h.id)
unfolding successful_history_id
successful_history_id-append organization_id started_at rows h e =
    rw (successes-append organization_id started_at rows h e)
      (only_id-append (successes organization_id started_at rows) h.id)
