-- ===== src/Backfill/Moves/Calls.antt =====
-- How each operation of chief-of-staff/backend/app/connectors/torqueai_backfill_control.py moves the windows.
use polaris_lab.Base.{
  ℕ, ltb, ◌+◌, ◌||◌, not, String, Bool, true, false, Option, none, some, List, [], ◌∷◌, All, str_eq,
  ◌≡◌, refl, inl, inr, Bool-cases, arith,
}
use polaris_lab.Backfill.Control.{
  holds_when, done, check_label, check_sha, found_or, found_or-eq-done, >>=-eq-done, Done, reached,
  refuse_if-Done, >>-Done, >>=-Done, found_or-Done,
}
use polaris_lab.Backfill.Tables.{
  Interval, Status, planned, previewed, Manifest, Window, Organization, Attempt, Ledger,
  find_window,
}
use polaris_lab.Backfill.Reports.{Report, Evidence}
use polaris_lab.Backfill.Evidence.{preview_evidence}
use polaris_lab.Backfill.Plan.{
  sort_intervals, find_manifest, check_tenant, new_windows, plan_or_replan, plan,
}
use polaris_lab.Backfill.Preview.{
  is_live, is_claim_of, is_quarantined, is_previewed, claimed, finished_window, approve_row,
  verdict, is_complete, the_window, claim_or_retry, attempt_by_key, begin_preview, verdict_of,
  finish_or_repeat, attempt_by_id, finish_preview, is_approved_by, approve_window, approve,
}
use polaris_lab.Backfill.Moves.{
  IsNone, AreFresh, AllMove-fresh, IsVerdict, clean, conflicting, broken, claims, finishes,
  approves, IsFresh, AllMove, AllMove-stays, AllMove-append, update_window-AllMove,
}

verdict-IsVerdict :
    (s : String) (conflicts : ℕ) (historical : Bool) → IsVerdict (verdict s conflicts historical)
verdict-IsVerdict s conflicts historical = elim (Bool-cases (str_eq s "success")) [
  | inr h ↦ rw h broken
  | inl h ↦ elim (Bool-cases (ltb 0 conflicts || historical)) [
    | inl k ↦ rw (h, k) conflicting
    | inr k ↦ rw (h, k) clean
  ]
]

both_hold : (a b : Bool) → (not a || not b) ≡ false → (a ≡ true) × (b ≡ true)
both_hold a b h = ground arith

is_previewed_sound : (status : Status) → is_previewed status ≡ true → status ≡ previewed
is_previewed_sound previewed h = refl
is_previewed_sound planned h = cc
is_previewed_sound _ h = cc

module _ (organizations : List Organization) (uuid : ℕ → String) (fingerprint : Evidence → String)
    (organization_id : String) where
  new_windows-IsFresh :
      (manifest_id : String) (drawn now : ℕ) (intervals : List Interval)
      → All IsFresh (new_windows organizations uuid organization_id manifest_id drawn now intervals)
  unfolding new_windows
  new_windows-IsFresh manifest_id drawn now [] = tt
  new_windows-IsFresh manifest_id drawn now (i ∷ intervals) =
      ((refl, refl), new_windows-IsFresh manifest_id (drawn + 1) now intervals)

  -- The windows have moved, each as its life allows.
  abbrev pub MovesTo :
      (List Window → Type 0) → (R : Type 0) → Ledger Evidence → R × Ledger Evidence → Type 0
  MovesTo A R l (r, l') = AllMove A l.windows l'.windows

  plan_or_replan-MovesTo :
      (request_key operator code_sha : String) (intervals : List Interval) (now : ℕ)
      (l : Ledger Evidence) (previous : Option Manifest)
      → Done (MovesTo AreFresh String l) (
          plan_or_replan organizations uuid organization_id request_key operator code_sha intervals
            now l previous)
  plan_or_replan-MovesTo request_key operator code_sha intervals now l (some previous) =
      refuse_if-Done (MovesTo AreFresh String l) _ _ _
        λ same. reached (AllMove-fresh l.windows l.windows (AllMove-stays l.windows))
  plan_or_replan-MovesTo request_key operator code_sha intervals now l none =
      refuse_if-Done (MovesTo AreFresh String l) _ _ _ λ free. reached (
        AllMove-append l.windows _ (new_windows-IsFresh (uuid l.drawn) (l.drawn + 1) now intervals))

  pub plan-MovesTo :
      (request_key operator code_sha : String) (windows : List Interval) (now : ℕ)
      (l : Ledger Evidence)
      → Done
          (MovesTo AreFresh String l)
          (plan organizations uuid organization_id request_key operator code_sha windows now l)
  unfolding plan
  plan-MovesTo request_key operator code_sha windows now l =
      >>-Done (MovesTo AreFresh String l) _ _ (
        plan_or_replan-MovesTo request_key operator code_sha (sort_intervals windows) now l
          (find_manifest organization_id request_key l.manifests))

  claim_or_retry-MovesTo :
      (window_id request_key operator code_sha : String) (now : ℕ) (w : Window)
      (l : Ledger Evidence) (previous : Option (Attempt Evidence))
      → find_window organization_id window_id l.windows ≡ some w
      → Done (MovesTo IsNone (String × Bool) l) (
          claim_or_retry organizations uuid fingerprint organization_id window_id request_key
            operator code_sha now w l previous)
  claim_or_retry-MovesTo window_id request_key operator code_sha now w l (some a) h =
      refuse_if-Done (MovesTo IsNone (String × Bool) l) _ _ _
        λ same. reached (AllMove-stays l.windows)
  claim_or_retry-MovesTo window_id request_key operator code_sha now w l none h =
      refuse_if-Done (MovesTo IsNone (String × Bool) l) _ _ _ λ unsettled.
        refuse_if-Done (MovesTo IsNone (String × Bool) l) _ _ _ λ idle. reached (
          update_window-AllMove organization_id window_id (claimed (uuid l.drawn) now) w l.windows h
            (claims (uuid l.drawn) now unsettled idle refl))

  found_window :
      (window_id : String) (w : Window) (l : Ledger Evidence)
      → the_window organizations uuid fingerprint organization_id window_id l ≡ done w
      → find_window organization_id window_id l.windows ≡ some w
  found_window window_id w l known =
      let (u, active, found) =
        >>=-eq-done (check_tenant organizations uuid organization_id)
          (λ active.
            found_or "Unknown tenant window" (find_window organization_id window_id l.windows))
          known in
      found_or-eq-done "Unknown tenant window" (find_window organization_id window_id l.windows)
        found

  pub begin-MovesTo :
      (window_id request_key operator code_sha : String) (now : ℕ) (l : Ledger Evidence)
      → Done (MovesTo IsNone (String × Bool) l) (
          begin_preview organizations uuid fingerprint organization_id window_id request_key
            operator code_sha now l)
  unfolding begin_preview
  begin-MovesTo window_id request_key operator code_sha now l =
      >>-Done (MovesTo IsNone (String × Bool) l) (check_label request_key) _ (
        >>-Done (MovesTo IsNone (String × Bool) l) (check_label operator) _ (
          >>-Done (MovesTo IsNone (String × Bool) l) (check_sha code_sha) _ (
            >>=-Done (MovesTo IsNone (String × Bool) l)
              (the_window organizations uuid fingerprint organization_id window_id l) _
              λ w known.
                claim_or_retry-MovesTo window_id request_key operator code_sha now w l
                  (attempt_by_key organizations uuid fingerprint organization_id window_id
                    request_key l)
                  (found_window window_id w l known))))

  finish_or_repeat-MovesTo :
      (window_id attempt_id : String) (checked_at now : ℕ) (w : Window) (evidence : Evidence)
      (l : Ledger Evidence) (a : Attempt Evidence) (complete : Bool)
      → find_window organization_id window_id l.windows ≡ some w
      → Done (MovesTo IsNone Status l) (
          finish_or_repeat organizations uuid fingerprint organization_id window_id attempt_id
            checked_at now w evidence l a complete)
  finish_or_repeat-MovesTo window_id attempt_id checked_at now w evidence l a true h =
      refuse_if-Done (MovesTo IsNone Status l) _ _ _ λ same. reached (AllMove-stays l.windows)
  finish_or_repeat-MovesTo window_id attempt_id checked_at now w evidence l a false h =
      let status = verdict_of organizations uuid fingerprint organization_id window_id evidence l in
      refuse_if-Done (MovesTo IsNone Status l) _ _ _ λ held.
        let claim = both_hold (is_claim_of attempt_id w) (is_live w checked_at) held in
        reached (
          update_window-AllMove organization_id window_id (finished_window status now) w l.windows h
            (finishes attempt_id status checked_at now
              (verdict-IsVerdict evidence.status evidence.counts.identity_conflicts
                (is_quarantined organization_id window_id l.identities l.attempts))
              claim.0 claim.1 refl))

  pub finish-MovesTo :
      (window_id attempt_id : String) (report : Report) (checked_at now : ℕ) (l : Ledger Evidence)
      → Done (MovesTo IsNone Status l) (
          finish_preview organizations uuid fingerprint organization_id window_id attempt_id report
            checked_at now l)
  unfolding finish_preview
  finish-MovesTo window_id attempt_id report checked_at now l =
      >>=-Done (MovesTo IsNone Status l)
        (the_window organizations uuid fingerprint organization_id window_id l) _
        λ w known.
          found_or-Done (MovesTo IsNone Status l) "Unknown tenant attempt"
            (attempt_by_id organizations uuid fingerprint organization_id window_id attempt_id l) _
            λ a listed.
              >>=-Done (MovesTo IsNone Status l) (preview_evidence report w.interval) _
                λ evidence valid.
                  finish_or_repeat-MovesTo window_id attempt_id checked_at now w evidence l a
                    (is_complete a) (found_window window_id w l known)

  approve_window-Moves :
      (window_id operator : String) (now : ℕ) (w : Window) (l : Ledger Evidence)
      → find_window organization_id window_id l.windows ≡ some w
      → Done
          (λ l'. AllMove IsNone l.windows l'.windows)
          (approve_window organizations uuid fingerprint organization_id window_id operator now w l)
  approve_window-Moves window_id operator now w l h =
      elim (Bool-cases (is_approved_by organizations uuid fingerprint organization_id operator w)) [
        | inl again ↦ rw again (reached (AllMove-stays l.windows))
        | inr first ↦ rw first (
            refuse_if-Done (λ l'. AllMove IsNone l.windows l'.windows) _ _ _
              λ ready. reached (
                update_window-AllMove organization_id window_id (approve_row operator now) w
                  l.windows h
                  (approves operator now (is_previewed_sound w.status (holds_when _ ready)) refl)))
      ]

  pub approve-Moves :
      (window_id operator : String) (now : ℕ) (l : Ledger Evidence)
      → Done
          (λ l'. AllMove IsNone l.windows l'.windows)
          (approve organizations uuid fingerprint organization_id window_id operator now l)
  unfolding approve
  approve-Moves window_id operator now l =
      >>-Done (λ l'. AllMove IsNone l.windows l'.windows) (check_label operator) _
        (>>=-Done (λ l'. AllMove IsNone l.windows l'.windows)
          (the_window organizations uuid fingerprint organization_id window_id l) _
          λ w known.
            approve_window-Moves window_id operator now w l (found_window window_id w l known))
