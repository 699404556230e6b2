-- ===== src/Backfill/Preview/Rows.antt =====
-- The rows of a window and of an attempt as `_begin_preview`, `finish_preview` and `approve` of
-- chief-of-staff/backend/app/connectors/torqueai_backfill_control.py read and change them. `now` is what the
-- clock says, in seconds.
use polaris_lab.Base.{
  ℕ, ◌+◌, String, Bool, true, false, ◌&&◌, ◌||◌, not, Option, none, some, List, [], ◌∷◌, ltb,
  str_eq, if◌then◌else◌,
}
use polaris_lab.Backfill.Tables.{
  Status, planned, previewed, approved, running, completed, failed, blocked, Window, Identity,
  Attempt,
}
use polaris_lab.Backfill.Reports.{Evidence}

abbrev lease_seconds : ℕ
lease_seconds = 1800

abbrev pub is_settled : Status → Bool
is_settled approved = true
is_settled running = true
is_settled completed = true
is_settled _ = false

abbrev pub is_approved : Status → Bool
is_approved approved = true
is_approved _ = false

abbrev pub is_previewed : Status → Bool
is_previewed previewed = true
is_previewed _ = false

-- A claim whose lease has not run out; a claim without a lease is none.
abbrev pub is_live : Window → ℕ → Bool
is_live w now = elim w.active_attempt_id [
  | none ↦ false
  | some attempt_id ↦ elim w.lease_until [ none ↦ false | some until ↦ ltb now until ]
]

abbrev pub claimed : String → ℕ → Window → Window
claimed attempt_id now w = record w {
  active_attempt_id = some attempt_id;
  lease_until = some (now + lease_seconds);
  started_at = some now;
  completed_at = none;
  status = planned;
}

abbrev pub finished_window : Status → ℕ → Window → Window
finished_window status now w = record w {
  status = status;
  completed_at = some now;
  active_attempt_id = none;
  lease_until = none;
}

abbrev pub approve_row : String → ℕ → Window → Window
approve_row operator now w = record w {
  status = approved;
  approved_by = some operator;
  approved_at = some now;
}

abbrev pub is_of_window : String → String → Attempt Evidence → Bool
is_of_window organization_id window_id a =
    str_eq a.organization_id organization_id && str_eq a.window_id window_id

abbrev pub belongs : String → String → String → List (Attempt Evidence) → Bool
belongs organization_id window_id attempt_id [] = false
belongs organization_id window_id attempt_id (a ∷ attempts) =
    (is_of_window organization_id window_id a && str_eq a.id attempt_id)
    || belongs organization_id window_id attempt_id attempts

-- Whether an attempt of the window has an identity that was quarantined.
abbrev pub is_quarantined : String → String → List Identity → List (Attempt Evidence) → Bool
is_quarantined organization_id window_id [] attempts = false
is_quarantined organization_id window_id (i ∷ identities) attempts =
    (i.quarantined
      && str_eq i.organization_id organization_id
      && belongs organization_id window_id i.attempt_id attempts)
    || is_quarantined organization_id window_id identities attempts

abbrev pub verdict : String → ℕ → Bool → Status
verdict report_status conflicts historical_conflict =
    if not (str_eq report_status "success")
    then failed
    else if ltb 0 conflicts || historical_conflict
    then blocked
    else previewed

-- The row of a claimed window's earlier attempt, whose lease has run out.
abbrev pub expired : ℕ → Attempt Evidence → Attempt Evidence
expired now a = record a { status = failed; completed_at = some now }

abbrev pub is_complete : Attempt Evidence → Bool
is_complete a = elim a.completed_at [ none ↦ false | some t ↦ true ]

abbrev pub no_evidence : Option Evidence → Bool
no_evidence none = true
no_evidence (some e) = false

abbrev pub has_digest : String → Attempt Evidence → Bool
has_digest digest a = elim a.evidence_fingerprint [ none ↦ false | some d ↦ str_eq d digest ]

abbrev pub is_claim_of : String → Window → Bool
is_claim_of attempt_id w = elim w.active_attempt_id [ none ↦ false | some a ↦ str_eq a attempt_id ]
