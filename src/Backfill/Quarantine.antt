-- ===== src/Backfill/Quarantine.antt =====
-- The quarantine of chief-of-staff/backend/app/connectors/torqueai_backfill_control.py: what a conflict of
-- identities means for the later previews of its window.
pub mod Calls
use polaris_lab.Base.{
  change_first, ℕ, ◌&&◌, ◌||◌, not, String, Bool, true, false, Option, none, some, List, [], ◌∷◌,
  ◌++◌, str_eq, ◌≡◌, refl, inl, inr, Bool-cases,
}
use polaris_lab.Backfill.Control.{
  done, ◌>>◌, check_label, check_sha, refuse_if, Done, reached, refuse_if-Done, >>-Done, >>=-Done,
  found_or-Done,
}
use polaris_lab.Backfill.Tables.{
  Interval, Status, Manifest, Window, Identity, Organization, Attempt, Ledger, is_attempt,
  update_attempt,
}
use polaris_lab.Backfill.Reports.{Report, Evidence}
use polaris_lab.Backfill.Evidence.{preview_evidence}
use polaris_lab.Backfill.Plan.{sort_intervals, find_manifest, plan_or_replan, plan}
use polaris_lab.Backfill.Preview.{
  is_settled, is_live, is_claim_of, is_of_window, belongs, is_quarantined, expired, is_complete,
  the_window, expire_active, claimed_ledger, finished_ledger, new_attempt, claim_or_retry,
  attempt_by_key, begin_preview, new_identities, finished_attempt, verdict_of, finish_or_repeat,
  attempt_by_id, finish_preview, is_approved_by, approve_window, approve,
}

or_grows :
    (a b c d : Bool)
    → (a ≡ true → c ≡ true)
    → (b ≡ true → d ≡ true)
    → (a || b) ≡ true
    → (c || d) ≡ true
or_grows true b c d f g h = rw (f refl) refl
or_grows false b c d f g h = elim (Bool-cases c) [ inl e ↦ rw e refl | inr e ↦ rw (e, g h) refl ]

and_grows : (a b c d : Bool) → (c ≡ true → d ≡ true) → (a && b && c) ≡ true → (a && b && d) ≡ true
and_grows true true c d f h = f h
and_grows true false c d f h = cc
and_grows false b c d f h = cc

-- A change of an attempt that leaves its keys.
abbrev IsSameAttempt : Attempt Evidence → Attempt Evidence → Type 0
IsSameAttempt a b =
    (b.id ≡ a.id) × (b.organization_id ≡ a.organization_id) × (b.window_id ≡ a.window_id)

module _ (organization_id window_id : String) where
  pub belongs-append :
      (id : String) (attempts added : List (Attempt Evidence))
      → belongs organization_id window_id id attempts ≡ true
      → belongs organization_id window_id id (attempts ++ added) ≡ true
  belongs-append id [] added h = cc
  belongs-append id (a ∷ attempts) added h =
      or_grows (is_of_window organization_id window_id a && str_eq a.id id)
        (belongs organization_id window_id id attempts)
        (is_of_window organization_id window_id a && str_eq a.id id)
        (belongs organization_id window_id id (attempts ++ added)) (λ e. e)
        (belongs-append id attempts added) h

  pub belongs-update :
      (id tenant changed : String) (change : Attempt Evidence → Attempt Evidence)
      → ((a : Attempt Evidence) → IsSameAttempt a (change a))
      → (attempts : List (Attempt Evidence))
      → belongs organization_id window_id id (update_attempt tenant changed change attempts)
        ≡ belongs organization_id window_id id attempts
  unfolding change_first
  belongs-update id tenant changed change same [] = refl
  belongs-update id tenant changed change same (a ∷ attempts) =
      elim (Bool-cases (is_attempt tenant changed a)) [
        | inl e ↦ rw (e, (same a).0, (same a).1, (same a).2) refl
        | inr e ↦ rw (e, belongs-update id tenant changed change same attempts) refl
      ]

  pub is_quarantined-Belong :
      (identities : List Identity) (attempts attempts' : List (Attempt Evidence))
      → ((id : String)
          → belongs organization_id window_id id attempts ≡ true
          → belongs organization_id window_id id attempts' ≡ true)
      → is_quarantined organization_id window_id identities attempts ≡ true
      → is_quarantined organization_id window_id identities attempts' ≡ true
  is_quarantined-Belong [] attempts attempts' more h = cc
  is_quarantined-Belong (i ∷ identities) attempts attempts' more h =
      or_grows
        (i.quarantined
          && str_eq i.organization_id organization_id
          && belongs organization_id window_id i.attempt_id attempts)
        (is_quarantined organization_id window_id identities attempts)
        (i.quarantined
          && str_eq i.organization_id organization_id
          && belongs organization_id window_id i.attempt_id attempts')
        (is_quarantined organization_id window_id identities attempts')
        (and_grows i.quarantined (str_eq i.organization_id organization_id)
          (belongs organization_id window_id i.attempt_id attempts)
          (belongs organization_id window_id i.attempt_id attempts') (more i.attempt_id))
        (is_quarantined-Belong identities attempts attempts' more) h

  pub is_quarantined-append :
      (identities added : List Identity) (attempts : List (Attempt Evidence))
      → is_quarantined organization_id window_id identities attempts ≡ true
      → is_quarantined organization_id window_id (identities ++ added) attempts ≡ true
  is_quarantined-append [] added attempts h = cc
  is_quarantined-append (i ∷ identities) added attempts h =
      or_grows
        (i.quarantined
          && str_eq i.organization_id organization_id
          && belongs organization_id window_id i.attempt_id attempts)
        (is_quarantined organization_id window_id identities attempts)
        (i.quarantined
          && str_eq i.organization_id organization_id
          && belongs organization_id window_id i.attempt_id attempts)
        (is_quarantined organization_id window_id (identities ++ added) attempts) (λ e. e)
        (is_quarantined-append identities added attempts) h

-- The quarantine of a window, in a ledger and after a call.
abbrev pub HasQuarantine : String → String → Ledger Evidence → Type 0
HasQuarantine organization_id window_id l =
    is_quarantined organization_id window_id l.identities l.attempts ≡ true

abbrev pub QuarantineAfter : String → String → (R : Type 0) → R × Ledger Evidence → Type 0
QuarantineAfter organization_id window_id R (r, l) = HasQuarantine organization_id window_id l
