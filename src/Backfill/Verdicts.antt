-- ===== src/Backfill/Verdicts.antt =====
-- What the operations of chief-of-staff/backend/app/connectors/torqueai_backfill_control.py come to when they
-- follow each other: the verdict on a window with a quarantined identity, and the transactions of `preview`.
use polaris_lab.Base.{
  ℕ, ◌||◌, not, ltb, String, Bool, true, false, Option, none, some, List, str_eq, ◌≡◌, refl, ◌⊎◌,
  inl, inr, Bool-cases,
}
use polaris_lab.Backfill.Control.{
  Controlled, control_error, done, Done, reached, Done-at, refuse_if-Done, >>=-Done, found_or-Done,
}
use polaris_lab.Backfill.Tables.{
  Interval, Status, failed, blocked, Window, Organization, Attempt, Ledger,
}
use polaris_lab.Backfill.Reports.{Report, Evidence}
use polaris_lab.Backfill.Evidence.{preview_evidence}
use polaris_lab.Backfill.Plan.{plan}
use polaris_lab.Backfill.Preview.{
  approve, is_claim_of, is_live, verdict, is_complete, the_window, begin_preview, verdict_of,
  finished_ledger, finish_or_repeat, attempt_by_id, finish_preview, after_finish, after_claimed,
  after_begin, claimed_window,
}
use polaris_lab.Backfill.Steps.{Step, plans, begins, ends, grants, Runs, here, next}
use polaris_lab.Backfill.Quarantine.{HasQuarantine, QuarantineAfter}
use polaris_lab.Backfill.Quarantine.Calls.{
  plan-HasQuarantine, begin-HasQuarantine, finish-HasQuarantine, approve-HasQuarantine,
}

verdict_quarantined :
    (s : String) (conflicts : ℕ)
    → (verdict s conflicts true ≡ failed) ⊎ (verdict s conflicts true ≡ blocked)
verdict_quarantined s conflicts = elim (Bool-cases (str_eq s "success")) [
  | inr h ↦ rw h (inl refl)
  | inl h ↦ elim (Bool-cases (ltb 0 conflicts)) [
    | inl k ↦ rw (h, k) (inr refl)
    | inr k ↦ rw (h, k) (inr refl)
  ]
]

abbrev IsUnclean : Status × Ledger Evidence → Type 0
IsUnclean (status, l) = (status ≡ failed) ⊎ (status ≡ blocked)

module _ (organizations : List Organization) (uuid : ℕ → String)
    (fingerprint : Evidence → String) where
  Step-HasQuarantine :
      (tenant window_id : String) (l l' : Ledger Evidence)
      → Step organizations uuid fingerprint l l'
      → HasQuarantine tenant window_id l
      → HasQuarantine tenant window_id l'
  Step-HasQuarantine t w l l' (plans org key operator sha windows now id d) h =
      Done-at (QuarantineAfter t w String)
        (plan organizations uuid org key operator sha windows now l) d
        (plan-HasQuarantine organizations uuid fingerprint t w org key operator sha windows now l h)
  Step-HasQuarantine t w l l' (begins org window_id key operator sha now result d) h =
      Done-at (QuarantineAfter t w (String × Bool))
        (begin_preview organizations uuid fingerprint org window_id key operator sha now l) d
        (begin-HasQuarantine organizations uuid fingerprint t w org window_id key operator sha now l
          h)
  Step-HasQuarantine t w l l' (ends org window_id attempt_id report checked_at now status d) h =
      Done-at (QuarantineAfter t w Status)
        (finish_preview organizations uuid fingerprint org window_id attempt_id report checked_at
          now l)
        d
        (finish-HasQuarantine organizations uuid fingerprint t w org window_id attempt_id report
          checked_at now l h)
  Step-HasQuarantine t w l l' (grants org window_id operator now d) h =
      Done-at (HasQuarantine t w)
        (approve organizations uuid fingerprint org window_id operator now l) d
        (approve-HasQuarantine organizations uuid fingerprint t w org window_id operator now l h)

  Runs-HasQuarantine :
      (tenant window_id : String) (l l' : Ledger Evidence)
      → Runs organizations uuid fingerprint l l'
      → HasQuarantine tenant window_id l
      → HasQuarantine tenant window_id l'
  Runs-HasQuarantine t w l l' here h = h
  Runs-HasQuarantine t w l l' (next {m} r s) h =
      Step-HasQuarantine t w m l' s (Runs-HasQuarantine t w l m r h)

  module _ (organization_id : String) where
    finish_or_repeat-IsUnclean :
        (window_id attempt_id : String) (checked_at now : ℕ) (w : Window) (evidence : Evidence)
        (l : Ledger Evidence) (a : Attempt Evidence) (complete : Bool)
        → complete ≡ false
        → HasQuarantine organization_id window_id l
        → Done IsUnclean (
            finish_or_repeat organizations uuid fingerprint organization_id window_id attempt_id
              checked_at now w evidence l a complete)
    finish_or_repeat-IsUnclean window_id attempt_id checked_at now w evidence l a true c h = cc
    finish_or_repeat-IsUnclean window_id attempt_id checked_at now w evidence l a false c h =
        refuse_if-Done IsUnclean (not (is_claim_of attempt_id w) || not (is_live w checked_at))
          "Preview lease lost/expired"
          (done (
            verdict_of organizations uuid fingerprint organization_id window_id evidence l,
            finished_ledger organizations uuid fingerprint organization_id window_id attempt_id now
                evidence l,
          ))
          λ held.
            reached (rw h (verdict_quarantined evidence.status evidence.counts.identity_conflicts))

    -- A quarantine lasts: once an identity of a window is quarantined, whatever operations are done since,
    -- in whatever order and for whichever tenant, a preview of the window that was still open and is then
    -- finished gets the verdict failed or blocked.
    pub quarantine_lasts :
        (window_id attempt_id : String) (report : Report) (checked_at now : ℕ) (status : Status)
        (a : Attempt Evidence) (l m l' : Ledger Evidence)
        → Runs organizations uuid fingerprint l m
        → HasQuarantine organization_id window_id l
        → attempt_by_id organizations uuid fingerprint organization_id window_id attempt_id m
          ≡ some a
        → a.completed_at ≡ none
        → finish_preview organizations uuid fingerprint organization_id window_id attempt_id report
            checked_at now m
          ≡ done (status, l')
        → (status ≡ failed) ⊎ (status ≡ blocked)
    unfolding finish_preview
    quarantine_lasts window_id attempt_id report checked_at now status a l m l' r h listed
          unfinished d =
        let kept = Runs-HasQuarantine organization_id window_id l m r h in
        Done-at IsUnclean
          (finish_preview organizations uuid fingerprint organization_id window_id attempt_id report
            checked_at now m)
          d
          (>>=-Done IsUnclean
            (the_window organizations uuid fingerprint organization_id window_id m) _
            λ w known.
              found_or-Done IsUnclean "Unknown tenant attempt"
                (attempt_by_id organizations uuid fingerprint organization_id window_id attempt_id
                  m)
                _
                λ b found.
                  >>=-Done IsUnclean (preview_evidence report w.interval) _ λ evidence valid.
                    finish_or_repeat-IsUnclean window_id attempt_id checked_at now w evidence m b
                      (is_complete b) (let same : b.completed_at ≡ none = cc in rw same refl) kept)

  module _ (preview_history : Interval → Report) (organization_id : String) where
    after_finish-Runs :
        (window_id attempt_id : String) (report : Report) (checked_at now : ℕ) (l : Ledger Evidence)
        (call : Controlled (Status × Ledger Evidence))
        → finish_preview organizations uuid fingerprint organization_id window_id attempt_id report
            checked_at now l
          ≡ call
        → Runs organizations uuid fingerprint l
            (after_finish organizations uuid fingerprint preview_history organization_id report l
              call).1
    after_finish-Runs window_id attempt_id report checked_at now l (control_error message) d = here
    after_finish-Runs window_id attempt_id report checked_at now l (done (status, l')) d =
        next here (ends organization_id window_id attempt_id report checked_at now status d)

    after_claimed-Runs :
        (window_id attempt_id : String) (checked_at now : ℕ) (l : Ledger Evidence)
        (call : Controlled (Option Evidence × Window))
        → Runs organizations uuid fingerprint l
            (after_claimed organizations uuid fingerprint preview_history organization_id window_id
              attempt_id checked_at now l call).1
    after_claimed-Runs window_id attempt_id checked_at now l (control_error message) = here
    after_claimed-Runs window_id attempt_id checked_at now l (done (some evidence, w)) = here
    after_claimed-Runs window_id attempt_id checked_at now l (done (none, w)) =
        after_finish-Runs window_id attempt_id (preview_history w.interval) checked_at now l _ refl

    Runs-append :
        (l m n : Ledger Evidence)
        → Runs organizations uuid fingerprint l m
        → Runs organizations uuid fingerprint m n
        → Runs organizations uuid fingerprint l n
    Runs-append l m n r here = r
    Runs-append l m n r (next {m = k} q s) = next (Runs-append l m k r q) s

    pub after_begin-Runs :
        (window_id request_key operator code_sha : String) (begun checked_at now : ℕ)
        (l : Ledger Evidence) (call : Controlled ((String × Bool) × Ledger Evidence))
        → begin_preview organizations uuid fingerprint organization_id window_id request_key
            operator code_sha begun l
          ≡ call
        → Runs organizations uuid fingerprint l
            (after_begin organizations uuid fingerprint preview_history organization_id window_id
              checked_at now l call).1
    after_begin-Runs window_id request_key operator code_sha begun checked_at now l
          (control_error message) d =
        here
    after_begin-Runs window_id request_key operator code_sha begun checked_at now l
          (done ((attempt_id, created), l')) d =
        Runs-append l l' _
          (next here (
            begins organization_id window_id request_key operator code_sha begun
              (attempt_id, created) d))
          (after_claimed-Runs window_id attempt_id checked_at now l' (
            claimed_window organizations uuid fingerprint preview_history organization_id window_id
              attempt_id created l'))
