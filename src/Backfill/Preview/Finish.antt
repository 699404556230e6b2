-- ===== src/Backfill/Preview/Finish.antt =====
-- `finish_preview` of chief-of-staff/backend/app/connectors/torqueai_backfill_control.py: the evidence of an
-- attempt and the verdict on its window. `fingerprint` is the digest of an evidence.
use polaris_lab.Base.{
  ℕ, ◌+◌, String, Bool, true, false, ◌||◌, not, Option, none, some, List, [], ◌∷◌, ◌++◌, str_eq,
  length, if◌then◌else◌,
}
use polaris_lab.Backfill.Control.{Controlled, done, ◌>>=◌, ◌>>◌, refuse_if, found_or}
use polaris_lab.Backfill.Tables.{
  Status, Window, Identity, Organization, Attempt, Ledger, update_window, update_attempt,
  find_attempt, is_attempt,
}
use polaris_lab.Backfill.Reports.{Report, ReportedIdentity, Evidence}
use polaris_lab.Backfill.Evidence.{is_conflict, preview_evidence}
use polaris_lab.Backfill.Preview.Rows.{
  is_live, finished_window, is_quarantined, verdict, is_complete, has_digest, is_claim_of,
}
use polaris_lab.Backfill.Preview.Claim.{the_window}

module _ (organizations : List Organization) (uuid : ℕ → String) (fingerprint : Evidence → String)
    (organization_id : String) where
  unfoldable pub new_identities : String → ℕ → List ReportedIdentity → List Identity
  new_identities attempt_id drawn [] = []
  new_identities attempt_id drawn (i ∷ identities) =
      record {
        id = uuid drawn;
        organization_id = organization_id;
        attempt_id = attempt_id;
        provider_load_number = i.provider_load_number;
        provider_order_number = i.provider_order_number;
        classification = i.classification;
        quarantined = is_conflict i.classification;
        conflicting_order_numbers = i.conflicting_order_numbers;
      }
      ∷ new_identities attempt_id (drawn + 1) identities

  abbrev pub finished_attempt : Status → ℕ → Evidence → Attempt Evidence → Attempt Evidence
  finished_attempt status now evidence a = record a {
    status = status;
    completed_at = some now;
    evidence = some evidence;
    evidence_fingerprint = some (fingerprint evidence);
  }

  abbrev pub verdict_of : String → Evidence → Ledger Evidence → Status
  verdict_of window_id evidence l =
      verdict evidence.status evidence.counts.identity_conflicts
        (is_quarantined organization_id window_id l.identities l.attempts)

  abbrev pub finished_ledger : String → String → ℕ → Evidence → Ledger Evidence → Ledger Evidence
  finished_ledger window_id attempt_id now evidence l =
      let status = verdict_of window_id evidence l in
      record l {
        identities = l.identities ++ new_identities attempt_id l.drawn evidence.identities;
        attempts =
            update_attempt organization_id attempt_id (finished_attempt status now evidence)
              l.attempts;
        windows = update_window organization_id window_id (finished_window status now) l.windows;
        drawn = l.drawn + length evidence.identities;
      }

  -- The evidence of an attempt that is complete stays as it is. The clock is read twice.
  abbrev pub finish_or_repeat :
      String
      → String
      → ℕ
      → ℕ
      → Window
      → Evidence
      → Ledger Evidence
      → Attempt Evidence
      → Bool
      → Controlled (Status × Ledger Evidence)
  finish_or_repeat window_id attempt_id checked_at now w evidence l a true = do
    refuse_if (not (has_digest (fingerprint evidence) a)) "Completed evidence is immutable"
    done (a.status, l)
  finish_or_repeat window_id attempt_id checked_at now w evidence l a false = do
    refuse_if (not (is_claim_of attempt_id w) || not (is_live w checked_at))
        "Preview lease lost/expired"
    done (verdict_of window_id evidence l, finished_ledger window_id attempt_id now evidence l)

  abbrev pub only_of : String → Option (Attempt Evidence) → Option (Attempt Evidence)
  only_of window_id none = none
  only_of window_id (some a) = if str_eq a.window_id window_id then some a else none

  abbrev pub attempt_by_id : String → String → Ledger Evidence → Option (Attempt Evidence)
  attempt_by_id window_id attempt_id l =
      only_of window_id (find_attempt (is_attempt organization_id attempt_id) l.attempts)

  -- `finish_preview`
  unfoldable pub finish_preview :
      String → String → Report → ℕ → ℕ → Ledger Evidence → Controlled (Status × Ledger Evidence)
  finish_preview window_id attempt_id report checked_at now l = do
    w ← the_window organizations uuid fingerprint organization_id window_id l
    a ← found_or "Unknown tenant attempt" (attempt_by_id window_id attempt_id l)
    evidence ← preview_evidence report w.interval
    finish_or_repeat window_id attempt_id checked_at now w evidence l a (is_complete a)
