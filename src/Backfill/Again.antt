-- ===== src/Backfill/Again.antt =====
-- The attempt that a second call of `finish_preview` finds,
-- chief-of-staff/backend/app/connectors/torqueai_backfill_control.py.
use polaris_lab.Base.{
  ℕ, String, true, Option, none, some, List, str_eq, ◌≡◌, refl, ap, inl, inr, Bool-cases,
}
use polaris_lab.Backfill.Control.{done, found_or, >>=-eq-done, found_or-eq-done}
use polaris_lab.Backfill.Tables.{
  Window, Organization, Attempt, Ledger, find_window, is_attempt, find_attempt,
}
use polaris_lab.Backfill.Reports.{Report, Evidence}
use polaris_lab.Backfill.Evidence.{preview_evidence}
use polaris_lab.Backfill.Plan.{check_tenant}
use polaris_lab.Backfill.Preview.{
  is_complete, has_digest, finished_window, the_window, finished_attempt, verdict_of,
  finished_ledger, finish_or_repeat, only_of, attempt_by_id, finish_preview,
}
use polaris_lab.Backfill.Lookup.{find_window-update, find_attempt-update}

module _ (organizations : List Organization) (uuid : ℕ → String) (fingerprint : Evidence → String)
    (organization_id : String) where
  only_of-eq :
      (window_id : String) (o : Option (Attempt Evidence)) (a : Attempt Evidence)
      → only_of organizations uuid fingerprint organization_id window_id o ≡ some a
      → (o ≡ some a) × (str_eq a.window_id window_id ≡ true)
  only_of-eq window_id none a h = cc
  only_of-eq window_id (some b) a h = elim (Bool-cases (str_eq b.window_id window_id)) [
    | inl e ↦
        let found : some b ≡ some a = rw e at h in
        let same : b ≡ a = cc in (ap some same, rw (← same) e)
    | inr e ↦ let found : none ≡ some a = rw e at h in cc
  ]

  -- The call on a ledger of which its parts are known.
  pub finish_known :
      (window_id attempt_id : String) (report : Report) (checked_at now : ℕ) (w : Window)
      (a : Attempt Evidence) (evidence : Evidence) (l : Ledger Evidence)
      → the_window organizations uuid fingerprint organization_id window_id l ≡ done w
      → attempt_by_id organizations uuid fingerprint organization_id window_id attempt_id l ≡ some a
      → preview_evidence report w.interval ≡ done evidence
      → finish_preview organizations uuid fingerprint organization_id window_id attempt_id report
          checked_at now l
        ≡ finish_or_repeat organizations uuid fingerprint organization_id window_id attempt_id
            checked_at now w evidence l a
            (is_complete a)
  unfolding finish_preview
  finish_known window_id attempt_id report checked_at now w a evidence l known listed valid =
      rw (known, listed, valid) refl

  pub repeat_complete :
      (window_id attempt_id : String) (checked_at now : ℕ) (w : Window) (evidence : Evidence)
      (l : Ledger Evidence) (a : Attempt Evidence)
      → is_complete a ≡ true
      → has_digest (fingerprint evidence) a ≡ true
      → finish_or_repeat organizations uuid fingerprint organization_id window_id attempt_id
          checked_at now w evidence l a
          (is_complete a)
        ≡ done (a.status, l)
  repeat_complete window_id attempt_id checked_at now w evidence l a c d = rw (c, d) refl

  pub known_again :
      (window_id attempt_id : String) (now : ℕ) (w : Window) (evidence : Evidence)
      (l : Ledger Evidence)
      → the_window organizations uuid fingerprint organization_id window_id l ≡ done w
      → the_window organizations uuid fingerprint organization_id window_id (
          finished_ledger organizations uuid fingerprint organization_id window_id attempt_id now
            evidence l)
        ≡ done (
            finished_window
              (verdict_of organizations uuid fingerprint organization_id window_id evidence l)
              now
              w)
  known_again window_id attempt_id now w evidence l known =
      let (u, active, found) =
        >>=-eq-done (check_tenant organizations uuid organization_id)
          (λ active.
            found_or "Unknown tenant window" (find_window organization_id window_id l.windows))
          known in
      rw
        (
          active,
          find_window-update organization_id window_id
              (finished_window
                (verdict_of organizations uuid fingerprint organization_id window_id evidence l)
                now)
              (λ v. (refl, refl)) l.windows w
              (found_or-eq-done "Unknown tenant window"
                (find_window organization_id window_id l.windows) found),
        )
        refl

  pub listed_again :
      (window_id attempt_id : String) (now : ℕ) (a : Attempt Evidence) (evidence : Evidence)
      (l : Ledger Evidence)
      → attempt_by_id organizations uuid fingerprint organization_id window_id attempt_id l ≡ some a
      → attempt_by_id organizations uuid fingerprint organization_id window_id attempt_id (
          finished_ledger organizations uuid fingerprint organization_id window_id attempt_id now
            evidence l)
        ≡ some (
            finished_attempt organizations uuid fingerprint organization_id
              (verdict_of organizations uuid fingerprint organization_id window_id evidence l)
              now
              evidence
              a)
  listed_again window_id attempt_id now a evidence l listed =
      let (found, own) =
        only_of-eq window_id (find_attempt (is_attempt organization_id attempt_id) l.attempts) a
          listed in
      rw
        (
          find_attempt-update organization_id attempt_id
              (finished_attempt organizations uuid fingerprint organization_id
                (verdict_of organizations uuid fingerprint organization_id window_id evidence l) now
                evidence)
              (λ b. (refl, refl)) l.attempts a found,
          own,
        )
        refl
