-- ===== src/Backfill/Repeat.antt =====
-- The second call of `finish_preview` of chief-of-staff/backend/app/connectors/torqueai_backfill_control.py.
use mathlib.Core.Path.{subst}
use polaris_lab.Base.{
  ℕ, ◌||◌, not, String, Bool, true, false, some, List, str_eq_refl, ◌≡◌, refl, ◌∙◌,
}
use polaris_lab.Backfill.Control.{
  holds_when, done, ◌>>=◌, refuse_if, found_or, >>=-eq-done, found_or-eq-done, refuse_if-eq-done,
  passed,
}
use polaris_lab.Backfill.Tables.{Status, Window, Organization, Attempt, Ledger}
use polaris_lab.Backfill.Reports.{Report, Evidence}
use polaris_lab.Backfill.Evidence.{preview_evidence}
use polaris_lab.Backfill.Preview.{
  is_claim_of, is_live, is_complete, has_digest, finished_window, the_window, finished_attempt,
  verdict_of, finished_ledger, finish_or_repeat, attempt_by_id, finish_preview,
}
use polaris_lab.Backfill.Again.{finish_known, repeat_complete, known_again, listed_again}

module _ (organizations : List Organization) (uuid : ℕ → String) (fingerprint : Evidence → String)
    (organization_id : String) where
  repeated :
      (window_id attempt_id : String) (report : Report) (checked_at now checked_later later : ℕ)
      (status : Status) (w : Window) (a : Attempt Evidence) (evidence : Evidence)
      (l l' : Ledger Evidence) (complete : Bool)
      → is_complete a ≡ complete
      → the_window organizations uuid fingerprint organization_id window_id l ≡ done w
      → attempt_by_id organizations uuid fingerprint organization_id window_id attempt_id l ≡ some a
      → preview_evidence report w.interval ≡ done evidence
      → finish_or_repeat organizations uuid fingerprint organization_id window_id attempt_id
          checked_at now w evidence l a complete
        ≡ done (status, l')
      → finish_preview organizations uuid fingerprint organization_id window_id attempt_id report
          checked_later later l'
        ≡ done (status, l')
  repeated window attempt report checked_at now checked_later later status w a evidence l l' true c
        known listed valid h =
      let test = not (has_digest (fingerprint evidence) a) in
      let same = passed test "Completed evidence is immutable" (a.status, l) (status, l') h in
      let (u, checked, returned) =
        >>=-eq-done (refuse_if test "Completed evidence is immutable")
          (λ nothing. done (a.status, l)) h in
      let digest : has_digest (fingerprint evidence) a ≡ true =
        holds_when (has_digest (fingerprint evidence) a)
          (refuse_if-eq-done test "Completed evidence is immutable" checked) in
      subst
        (λ p.
          finish_preview organizations uuid fingerprint organization_id window attempt report
            checked_later later p.1
          ≡ done p)
        same
        (finish_known organizations uuid fingerprint organization_id window attempt report
            checked_later later w a evidence l known listed valid
          ∙ repeat_complete organizations uuid fingerprint organization_id window attempt
              checked_later later w evidence l a c digest)
  repeated window attempt report checked_at now checked_later later status w a evidence l l' false c
        known listed valid h =
      let verdict = verdict_of organizations uuid fingerprint organization_id window evidence l in
      let l1 =
        finished_ledger organizations uuid fingerprint organization_id window attempt now evidence
          l in
      let same =
        passed (not (is_claim_of attempt w) || not (is_live w checked_at))
          "Preview lease lost/expired" (verdict, l1) (status, l') h in
      let a1 =
        finished_attempt organizations uuid fingerprint organization_id verdict now evidence a in
      let w1 = finished_window verdict now w in
      subst
        (λ p.
          finish_preview organizations uuid fingerprint organization_id window attempt report
            checked_later later p.1
          ≡ done p)
        same
        (finish_known organizations uuid fingerprint organization_id window attempt report
            checked_later later w1 a1 evidence l1
            (known_again organizations uuid fingerprint organization_id window attempt now w
              evidence l known)
            (listed_again organizations uuid fingerprint organization_id window attempt now a
              evidence l listed)
            valid
          ∙ repeat_complete organizations uuid fingerprint organization_id window attempt
              checked_later later w1 evidence l1 a1 refl (str_eq_refl (fingerprint evidence)))

  -- A preview is finished once: a second call with the same report, whenever it is, returns the verdict of
  -- the first and leaves the ledger as the first left it.
  pub finish_again :
      (window_id attempt_id : String) (report : Report) (checked_at now checked_later later : ℕ)
      (status : Status) (l l' : Ledger Evidence)
      → finish_preview organizations uuid fingerprint organization_id window_id attempt_id report
          checked_at now l
        ≡ done (status, l')
      → finish_preview organizations uuid fingerprint organization_id window_id attempt_id report
          checked_later later l'
        ≡ done (status, l')
  unfolding finish_preview
  finish_again window attempt report checked_at now checked_later later status l l' h =
      let (w, known, h1) =
        >>=-eq-done (the_window organizations uuid fingerprint organization_id window l)
          (λ w.
            found_or "Unknown tenant attempt"
              (attempt_by_id organizations uuid fingerprint organization_id window attempt l)
            >>= λ a. preview_evidence report w.interval >>= λ evidence.
                finish_or_repeat organizations uuid fingerprint organization_id window attempt
                  checked_at now w evidence l a (is_complete a))
          h in
      let (a, listed, h2) =
        >>=-eq-done
          (found_or "Unknown tenant attempt"
            (attempt_by_id organizations uuid fingerprint organization_id window attempt l))
          (λ a. preview_evidence report w.interval >>= λ evidence.
            finish_or_repeat organizations uuid fingerprint organization_id window attempt
              checked_at now w evidence l a (is_complete a))
          h1 in
      let (evidence, valid, h3) =
        >>=-eq-done (preview_evidence report w.interval)
          (λ evidence.
            finish_or_repeat organizations uuid fingerprint organization_id window attempt
              checked_at now w evidence l a (is_complete a))
          h2 in
      repeated window attempt report checked_at now checked_later later status w a evidence l l'
        (is_complete a) refl known
        (found_or-eq-done "Unknown tenant attempt"
          (attempt_by_id organizations uuid fingerprint organization_id window attempt l) listed)
        valid h3
