-- ===== src/Backfill/Quarantine/Calls.antt =====
-- No operation of chief-of-staff/backend/app/connectors/torqueai_backfill_control.py takes a quarantine away.
use polaris_lab.Base.{
  ℕ, ◌||◌, not, String, Bool, true, false, Option, none, some, List, [], ◌∷◌, ◌++◌, ◌≡◌, refl, inl,
  inr, Bool-cases,
}
use polaris_lab.Backfill.Control.{
  done, ◌>>◌, check_label, check_sha, refuse_if, Done, reached, refuse_if-Done, >>-Done, >>=-Done,
  found_or-Done,
}
use polaris_lab.Backfill.Tables.{
  Interval, Status, Manifest, Window, Organization, Attempt, Ledger, update_attempt,
}
use polaris_lab.Backfill.Reports.{Report, Evidence}
use polaris_lab.Backfill.Evidence.{preview_evidence}
use polaris_lab.Backfill.Plan.{sort_intervals, find_manifest, plan_or_replan, plan}
use polaris_lab.Backfill.Preview.{
  is_settled, is_live, is_claim_of, belongs, expired, is_complete, the_window, expire_active,
  claimed_ledger, finished_ledger, new_attempt, claim_or_retry, attempt_by_key, begin_preview,
  new_identities, finished_attempt, verdict_of, finish_or_repeat, attempt_by_id, finish_preview,
  is_approved_by, approve_window, approve,
}
use polaris_lab.Backfill.Quarantine.{
  HasQuarantine, QuarantineAfter, belongs-append, belongs-update, is_quarantined-Belong,
  is_quarantined-append,
}

module _ (organizations : List Organization) (uuid : ℕ → String) (fingerprint : Evidence → String)
    (tenant quarantined : String) (organization_id : String) where
  plan_or_replan-HasQuarantine :
      (request_key operator code_sha : String) (intervals : List Interval) (now : ℕ)
      (l : Ledger Evidence) (previous : Option Manifest)
      → HasQuarantine tenant quarantined l
      → Done (QuarantineAfter tenant quarantined String) (
          plan_or_replan organizations uuid organization_id request_key operator code_sha intervals
            now l previous)
  plan_or_replan-HasQuarantine request_key operator code_sha intervals now l (some previous) h =
      refuse_if-Done (QuarantineAfter tenant quarantined String) _ _ _ λ same. reached h
  plan_or_replan-HasQuarantine request_key operator code_sha intervals now l none h =
      refuse_if-Done (QuarantineAfter tenant quarantined String) _ _ _ λ free. reached h

  pub plan-HasQuarantine :
      (request_key operator code_sha : String) (windows : List Interval) (now : ℕ)
      (l : Ledger Evidence)
      → HasQuarantine tenant quarantined l
      → Done
          (QuarantineAfter tenant quarantined String)
          (plan organizations uuid organization_id request_key operator code_sha windows now l)
  unfolding plan
  plan-HasQuarantine request_key operator code_sha windows now l h =
      >>-Done (QuarantineAfter tenant quarantined String) _ _ (
        plan_or_replan-HasQuarantine request_key operator code_sha (sort_intervals windows) now l
          (find_manifest organization_id request_key l.manifests) h)

  expire_active-belongs :
      (active : Option String) (now : ℕ) (attempts : List (Attempt Evidence)) (id : String)
      → belongs tenant quarantined id attempts ≡ true
      → belongs tenant quarantined id
          (expire_active organizations uuid fingerprint organization_id active now attempts)
        ≡ true
  expire_active-belongs none now attempts id h = h
  expire_active-belongs (some attempt_id) now attempts id h =
      rw
        (belongs-update tenant quarantined id organization_id attempt_id (expired now)
          (λ a. (refl, refl, refl)) attempts)
        h

  claimed_ledger-HasQuarantine :
      (window_id request_key operator code_sha : String) (now : ℕ) (w : Window)
      (l : Ledger Evidence)
      → HasQuarantine tenant quarantined l
      → HasQuarantine tenant quarantined (
          claimed_ledger organizations uuid fingerprint organization_id window_id request_key
            operator code_sha now w l)
  claimed_ledger-HasQuarantine window_id request_key operator code_sha now w l h =
      let active =
        expire_active organizations uuid fingerprint organization_id w.active_attempt_id now
          l.attempts in
      let fresh =
        new_attempt organizations uuid fingerprint organization_id (uuid l.drawn) window_id
          request_key operator code_sha now in
      is_quarantined-Belong tenant quarantined l.identities l.attempts (active ++ fresh ∷ [])
        (λ id e.
          belongs-append tenant quarantined id active (fresh ∷ [])
            (expire_active-belongs w.active_attempt_id now l.attempts id e))
        h

  finished_ledger-HasQuarantine :
      (window_id attempt_id : String) (now : ℕ) (evidence : Evidence) (l : Ledger Evidence)
      → HasQuarantine tenant quarantined l
      → HasQuarantine tenant quarantined (
          finished_ledger organizations uuid fingerprint organization_id window_id attempt_id now
            evidence l)
  finished_ledger-HasQuarantine window_id attempt_id now evidence l h =
      let status = verdict_of organizations uuid fingerprint organization_id window_id evidence l in
      let finish =
        finished_attempt organizations uuid fingerprint organization_id status now evidence in
      let attempts = update_attempt organization_id attempt_id finish l.attempts in
      is_quarantined-append tenant quarantined l.identities
        (new_identities organizations uuid fingerprint organization_id attempt_id l.drawn
          evidence.identities)
        attempts
        (is_quarantined-Belong tenant quarantined l.identities l.attempts attempts
          (λ id e.
            rw
              (belongs-update tenant quarantined id organization_id attempt_id finish
                (λ a. (refl, refl, refl)) l.attempts)
              e)
          h)

  claim_or_retry-HasQuarantine :
      (window_id request_key operator code_sha : String) (now : ℕ) (w : Window)
      (l : Ledger Evidence) (previous : Option (Attempt Evidence))
      → HasQuarantine tenant quarantined l
      → Done (QuarantineAfter tenant quarantined (String × Bool)) (
          claim_or_retry organizations uuid fingerprint organization_id window_id request_key
            operator code_sha now w l previous)
  claim_or_retry-HasQuarantine window_id request_key operator code_sha now w l (some a) h =
      refuse_if-Done (QuarantineAfter tenant quarantined (String × Bool)) _ _ _ λ same. reached h
  claim_or_retry-HasQuarantine window_id request_key operator code_sha now w l none h =
      refuse_if-Done (QuarantineAfter tenant quarantined (String × Bool)) (is_settled w.status)
        "Approved/executing window cannot be re-previewed"
        (refuse_if (is_live w now) "Preview claim already active"
          >> done (
            (uuid l.drawn, true),
            claimed_ledger organizations uuid fingerprint organization_id window_id request_key
                operator code_sha now w l,
          ))
        λ unsettled.
          refuse_if-Done (QuarantineAfter tenant quarantined (String × Bool)) (is_live w now)
            "Preview claim already active"
            (done (
              (uuid l.drawn, true),
              claimed_ledger organizations uuid fingerprint organization_id window_id request_key
                  operator code_sha now w l,
            ))
            λ idle.
              reached
                (claimed_ledger-HasQuarantine window_id request_key operator code_sha now w l h)

  pub begin-HasQuarantine :
      (window_id request_key operator code_sha : String) (now : ℕ) (l : Ledger Evidence)
      → HasQuarantine tenant quarantined l
      → Done (QuarantineAfter tenant quarantined (String × Bool)) (
          begin_preview organizations uuid fingerprint organization_id window_id request_key
            operator code_sha now l)
  unfolding begin_preview
  begin-HasQuarantine window_id request_key operator code_sha now l h =
      >>-Done (QuarantineAfter tenant quarantined (String × Bool)) (check_label request_key) _ (
        >>-Done (QuarantineAfter tenant quarantined (String × Bool)) (check_label operator) _ (
          >>-Done (QuarantineAfter tenant quarantined (String × Bool)) (check_sha code_sha) _ (
            >>=-Done (QuarantineAfter tenant quarantined (String × Bool))
              (the_window organizations uuid fingerprint organization_id window_id l) _
              λ w known.
                claim_or_retry-HasQuarantine window_id request_key operator code_sha now w l
                  (attempt_by_key organizations uuid fingerprint organization_id window_id
                    request_key l)
                  h)))

  finish_or_repeat-HasQuarantine :
      (window_id attempt_id : String) (checked_at now : ℕ) (w : Window) (evidence : Evidence)
      (l : Ledger Evidence) (a : Attempt Evidence) (complete : Bool)
      → HasQuarantine tenant quarantined l
      → Done (QuarantineAfter tenant quarantined Status) (
          finish_or_repeat organizations uuid fingerprint organization_id window_id attempt_id
            checked_at now w evidence l a complete)
  finish_or_repeat-HasQuarantine window_id attempt_id checked_at now w evidence l a true h =
      refuse_if-Done (QuarantineAfter tenant quarantined Status) _ _ _ λ same. reached h
  finish_or_repeat-HasQuarantine window_id attempt_id checked_at now w evidence l a false h =
      refuse_if-Done (QuarantineAfter tenant quarantined Status)
        (not (is_claim_of attempt_id w) || not (is_live w checked_at)) "Preview lease lost/expired"
        (done (
          verdict_of organizations uuid fingerprint organization_id window_id evidence l,
          finished_ledger organizations uuid fingerprint organization_id window_id attempt_id now
              evidence l,
        ))
        λ held. reached (finished_ledger-HasQuarantine window_id attempt_id now evidence l h)

  pub finish-HasQuarantine :
      (window_id attempt_id : String) (report : Report) (checked_at now : ℕ) (l : Ledger Evidence)
      → HasQuarantine tenant quarantined l
      → Done (QuarantineAfter tenant quarantined Status) (
          finish_preview organizations uuid fingerprint organization_id window_id attempt_id report
            checked_at now l)
  unfolding finish_preview
  finish-HasQuarantine window_id attempt_id report checked_at now l h =
      >>=-Done (QuarantineAfter tenant quarantined Status)
        (the_window organizations uuid fingerprint organization_id window_id l) _
        λ w known.
          found_or-Done (QuarantineAfter tenant quarantined Status) "Unknown tenant attempt"
            (attempt_by_id organizations uuid fingerprint organization_id window_id attempt_id l) _
            λ a listed.
              >>=-Done (QuarantineAfter tenant quarantined Status)
                (preview_evidence report w.interval) _
                λ evidence valid.
                  finish_or_repeat-HasQuarantine window_id attempt_id checked_at now w evidence l a
                    (is_complete a) h

  approve_window-HasQuarantine :
      (window_id operator : String) (now : ℕ) (w : Window) (l : Ledger Evidence)
      → HasQuarantine tenant quarantined l
      → Done
          (HasQuarantine tenant quarantined)
          (approve_window organizations uuid fingerprint organization_id window_id operator now w l)
  approve_window-HasQuarantine window_id operator now w l h =
      elim (Bool-cases (is_approved_by organizations uuid fingerprint organization_id operator w)) [
        | inl again ↦ rw again (reached h)
        | inr first ↦
            rw first (refuse_if-Done (HasQuarantine tenant quarantined) _ _ _ λ ready. reached h)
      ]

  pub approve-HasQuarantine :
      (window_id operator : String) (now : ℕ) (l : Ledger Evidence)
      → HasQuarantine tenant quarantined l
      → Done
          (HasQuarantine tenant quarantined)
          (approve organizations uuid fingerprint organization_id window_id operator now l)
  unfolding approve
  approve-HasQuarantine window_id operator now l h =
      >>-Done (HasQuarantine tenant quarantined) (check_label operator) _ (
        >>=-Done (HasQuarantine tenant quarantined)
          (the_window organizations uuid fingerprint organization_id window_id l) _
          λ w known. approve_window-HasQuarantine window_id operator now w l h)
