-- ===== src/Backfill/Lookup.antt =====
-- Reading a window or an attempt back after it is changed, in the tables of
-- chief-of-staff/backend/app/connectors/torqueai_backfill_control.py.
use polaris_lab.Base.{String, some, List, ◌≡◌, find_first-change}
use polaris_lab.Backfill.Tables.{
  Window, Attempt, is_window, find_window, update_window, is_attempt, find_attempt, update_attempt,
}
use polaris_lab.Backfill.Reports.{Evidence}

module _ (organization_id id : String) where
  pub find_window-update :
      (change : Window → Window)
      → ((w : Window) → ((change w).organization_id ≡ w.organization_id) × ((change w).id ≡ w.id))
      → (windows : List Window) (w : Window) → find_window organization_id id windows ≡ some w
      → find_window organization_id id (update_window organization_id id change windows)
        ≡ some (change w)
  unfolding is_window
  find_window-update change same =
      find_first-change (is_window organization_id id) change (λ x e. rw ((same x).0, (same x).1) e)

  pub find_attempt-update :
      (change : Attempt Evidence → Attempt Evidence)
      → ((a : Attempt Evidence)
          → ((change a).organization_id ≡ a.organization_id) × ((change a).id ≡ a.id))
      → (attempts : List (Attempt Evidence)) (a : Attempt Evidence)
      → find_attempt (is_attempt organization_id id) attempts ≡ some a
      → find_attempt
          (is_attempt organization_id id)
          (update_attempt organization_id id change attempts)
        ≡ some (change a)
  unfolding is_attempt
  find_attempt-update change same =
      find_first-change (is_attempt organization_id id) change
        (λ x e. rw ((same x).0, (same x).1) e)
