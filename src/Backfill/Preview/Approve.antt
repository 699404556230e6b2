-- ===== src/Backfill/Preview/Approve.antt =====
-- `approve` of chief-of-staff/backend/app/connectors/torqueai_backfill_control.py.
use polaris_lab.Base.{ℕ, String, Bool, false, ◌&&◌, not, none, some, List, str_eq, if◌then◌else◌}
use polaris_lab.Backfill.Control.{Controlled, done, ◌>>=◌, ◌>>◌, refuse_if, check_label}
use polaris_lab.Backfill.Tables.{Window, Organization, Ledger, update_window}
use polaris_lab.Backfill.Reports.{Evidence}
use polaris_lab.Backfill.Preview.Rows.{is_previewed, is_approved, approve_row}
use polaris_lab.Backfill.Preview.Claim.{the_window}

module _ (organizations : List Organization) (uuid : ℕ → String) (fingerprint : Evidence → String)
    (organization_id : String) where
  abbrev pub is_approved_by : String → Window → Bool
  is_approved_by operator w =
      elim w.approved_by [ none ↦ false | some o ↦ str_eq o operator ] && is_approved w.status

  abbrev pub approve_window :
      String → String → ℕ → Window → Ledger Evidence → Controlled (Ledger Evidence)
  approve_window window_id operator now w l =
      if is_approved_by operator w
      then done l
      else refuse_if (not (is_previewed w.status))
          "Only conflict-free successful previews may be approved"
        >> done (record l {
          windows = update_window organization_id window_id (approve_row operator now) l.windows;
        })

  -- `approve`
  unfoldable pub approve : String → String → ℕ → Ledger Evidence → Controlled (Ledger Evidence)
  approve window_id operator now l = do
    check_label operator
    w ← the_window organizations uuid fingerprint organization_id window_id l
    approve_window window_id operator now w l
