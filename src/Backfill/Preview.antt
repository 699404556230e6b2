-- ===== src/Backfill/Preview.antt =====
-- `preview` of chief-of-staff/backend/app/connectors/torqueai_backfill_control.py, over `_begin_preview`
-- (Claim), `finish_preview` (Finish) and the rows of a window (Rows), and with them `approve` (Approve).
-- `preview_history` is the read-only preview of an interval.
pub mod Rows
pub mod Claim
pub mod Finish
pub mod Approve
use polaris_lab.Base.{
  ℕ, ◌+◌, String, Bool, true, false, ◌&&◌, ◌||◌, not, Option, none, some, List, [], ◌∷◌, ◌++◌, ltb,
  str_eq, length, if◌then◌else◌,
}
use polaris_lab.Backfill.Control.{
  Controlled, control_error, done, ◌>>=◌, ◌>>◌, refuse_if, found_or, check_label, check_sha,
}
use polaris_lab.Backfill.Tables.{
  Interval, Status, planned, previewing, previewed, approved, running, completed, failed, blocked,
  Window, Identity, Organization, Attempt, Ledger, find_window, update_window, update_attempt,
  find_attempt, is_attempt,
}
use polaris_lab.Backfill.Reports.{Report, ReportedIdentity, Evidence}
use polaris_lab.Backfill.Evidence.{is_conflict, preview_evidence}
use polaris_lab.Backfill.Plan.{check_tenant}
unfoldable pub use Rows.*
unfoldable pub use Claim.*
unfoldable pub use Finish.*
unfoldable pub use Approve.*

-- What `preview` returns: the evidence of an earlier call, or the report of the provider's data.
pub data Previewed : Type 0 where
  stored : Evidence → Previewed
  fetched : Report → Previewed

module _ (organizations : List Organization) (uuid : ℕ → String) (fingerprint : Evidence → String)
    (preview_history : Interval → Report) (organization_id : String) where
  -- The second transaction, which reads what the first one claimed.
  abbrev pub claimed_window :
      String → String → Bool → Ledger Evidence → Controlled (Option Evidence × Window)
  claimed_window window_id attempt_id created l = do
    w ← the_window organizations uuid fingerprint organization_id window_id l
    a ←
        found_or "No row was found when one was required"
          (find_attempt (is_attempt organization_id attempt_id) l.attempts)
    refuse_if (is_complete a && no_evidence a.evidence)
        "Expired attempt has no evidence; use a new retry key"
    refuse_if (not (is_complete a) && not created)
        "Preview request already in progress; do not refetch"
    done (if is_complete a then a.evidence else none, w)

  abbrev pub after_finish :
      Report
      → Ledger Evidence
      → Controlled (Status × Ledger Evidence)
      → Controlled Previewed × Ledger Evidence
  after_finish report l (control_error message) = (control_error message, l)
  after_finish report l (done (status, l')) = (done (fetched report), l')

  abbrev pub after_claimed :
      String
      → String
      → ℕ
      → ℕ
      → Ledger Evidence
      → Controlled (Option Evidence × Window)
      → Controlled Previewed × Ledger Evidence
  after_claimed window_id attempt_id checked_at now l (control_error message) =
      (control_error message, l)
  after_claimed window_id attempt_id checked_at now l (done (some evidence, w)) =
      (done (stored evidence), l)
  after_claimed window_id attempt_id checked_at now l (done (none, w)) =
      let report = preview_history w.interval in
      after_finish report l (
        finish_preview organizations uuid fingerprint organization_id window_id attempt_id report
          checked_at now l)

  abbrev pub after_begin :
      String
      → ℕ
      → ℕ
      → Ledger Evidence
      → Controlled ((String × Bool) × Ledger Evidence)
      → Controlled Previewed × Ledger Evidence
  after_begin window_id checked_at now l (control_error message) = (control_error message, l)
  after_begin window_id checked_at now l (done ((attempt_id, created), l')) =
      after_claimed window_id attempt_id checked_at now l'
        (claimed_window window_id attempt_id created l')

  -- `preview`: three transactions, each with the clock's readings at its time
  unfoldable pub preview :
      String
      → String
      → String
      → String
      → ℕ
      → ℕ
      → ℕ
      → Ledger Evidence
      → Controlled Previewed × Ledger Evidence
  preview window_id request_key operator code_sha begun checked_at now l =
      after_begin window_id checked_at now l (
        begin_preview organizations uuid fingerprint organization_id window_id request_key operator
          code_sha begun l)
