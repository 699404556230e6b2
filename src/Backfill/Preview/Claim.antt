-- ===== src/Backfill/Preview/Claim.antt =====
-- `_begin_preview` of chief-of-staff/backend/app/connectors/torqueai_backfill_control.py: the claim of a
-- window under a lease.
use polaris_lab.Base.{
  ℕ, ◌+◌, String, Bool, true, false, ◌&&◌, ◌||◌, not, Option, none, some, List, [], ◌∷◌, ◌++◌,
  str_eq,
}
use polaris_lab.Backfill.Control.{
  Controlled, done, ◌>>=◌, ◌>>◌, refuse_if, found_or, check_label, check_sha,
}
use polaris_lab.Backfill.Tables.{
  previewing, Window, Organization, Attempt, Ledger, find_window, update_window, update_attempt,
  find_attempt,
}
use polaris_lab.Backfill.Reports.{Evidence}
use polaris_lab.Backfill.Plan.{check_tenant}
use polaris_lab.Backfill.Preview.Rows.{is_settled, is_live, claimed, is_of_window, expired}

module _ (organizations : List Organization) (uuid : ℕ → String) (fingerprint : Evidence → String)
    (organization_id : String) where
  -- `_window`
  abbrev pub the_window : String → Ledger Evidence → Controlled Window
  the_window window_id l =
      check_tenant organizations uuid organization_id
      >> found_or "Unknown tenant window" (find_window organization_id window_id l.windows)

  abbrev pub expire_active : Option String → ℕ → List (Attempt Evidence) → List (Attempt Evidence)
  expire_active none now attempts = attempts
  expire_active (some attempt_id) now attempts =
      update_attempt organization_id attempt_id (expired now) attempts

  abbrev pub new_attempt : String → String → String → String → String → ℕ → Attempt Evidence
  new_attempt id window_id request_key operator code_sha now = record {
    id = id;
    organization_id = organization_id;
    window_id = window_id;
    request_key = request_key;
    operator = operator;
    code_sha = code_sha;
    started_at = now;
    completed_at = none;
    status = previewing;
    evidence = none;
    evidence_fingerprint = none;
  }

  abbrev pub claimed_ledger :
      String → String → String → String → ℕ → Window → Ledger Evidence → Ledger Evidence
  claimed_ledger window_id request_key operator code_sha now w l =
      let attempt_id = uuid l.drawn in
      record l {
        attempts =
            expire_active w.active_attempt_id now l.attempts
            ++ new_attempt attempt_id window_id request_key operator code_sha now ∷ [];
        windows = update_window organization_id window_id (claimed attempt_id now) l.windows;
        drawn = l.drawn + 1;
      }

  -- The attempt of an earlier call with the same key, or a new claim of the window.
  abbrev pub claim_or_retry :
      String
      → String
      → String
      → String
      → ℕ
      → Window
      → Ledger Evidence
      → Option (Attempt Evidence)
      → Controlled ((String × Bool) × Ledger Evidence)
  claim_or_retry window_id request_key operator code_sha now w l (some previous) = do
    refuse_if (not (str_eq previous.operator operator) || not (str_eq previous.code_sha code_sha))
        "Retry key metadata changed"
    done ((previous.id, false), l)
  claim_or_retry window_id request_key operator code_sha now w l none = do
    refuse_if (is_settled w.status) "Approved/executing window cannot be re-previewed"
    refuse_if (is_live w now) "Preview claim already active"
    done ((uuid l.drawn, true), claimed_ledger window_id request_key operator code_sha now w l)

  abbrev pub attempt_by_key : String → String → Ledger Evidence → Option (Attempt Evidence)
  attempt_by_key window_id request_key l =
      find_attempt
        (λ a. is_of_window organization_id window_id a && str_eq a.request_key request_key)
        l.attempts

  -- `_begin_preview`
  unfoldable pub begin_preview :
      String
      → String
      → String
      → String
      → ℕ
      → Ledger Evidence
      → Controlled ((String × Bool) × Ledger Evidence)
  begin_preview window_id request_key operator code_sha now l = do
    check_label request_key
    check_label operator
    check_sha code_sha
    w ← the_window window_id l
    claim_or_retry window_id request_key operator code_sha now w l
        (attempt_by_key window_id request_key l)
