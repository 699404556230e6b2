-- ===== src/Backfill/Disjoint/Plans.antt =====
-- What `plan` of chief-of-staff/backend/app/connectors/torqueai_backfill_control.py adds has no day in common
-- with what is planned, and no other operation changes the days of a window.
use polaris_lab.Base.{
  not, ℕ, ◌+◌, String, Bool, false, Option, none, some, List, [], ◌∷◌, All, All-append, ◌≡◌,
}
use polaris_lab.Backfill.Control.{
  refuse_if-last, ◌>>◌, check_label, check_sha, refuse_if, Done, reached, Done-at, refuse_if-Done,
  >>-Done, >>=-Done,
}
use polaris_lab.Backfill.Tables.{Status, Interval, Manifest, Window, Organization, Ledger}
use polaris_lab.Backfill.Reports.{Evidence}
use polaris_lab.Backfill.Plan.{
  validate_windows, overlapping, sort_intervals, find_manifest, check_tenant, no_interval,
  is_active_tenant, new_windows, plan_or_replan, check_plan, plan,
}
use polaris_lab.Backfill.Moves.{AllMove, IsNone}
use polaris_lab.Backfill.Steps.{Step, plans, begins, ends, grants, Runs, here, next}
use polaris_lab.Backfill.Moves.Calls.{MovesTo, begin-MovesTo, finish-MovesTo, approve-Moves}
use polaris_lab.Backfill.Disjoint.{
  IsRange, HasRange, AreClear, IsOrderly, moved-IsOrderly, AreDisjoint-append,
  validate_windows-AreRanges,
}
use polaris_lab.Backfill.Disjoint.Ranges.{
  new_windows-HasRange, new_windows-AreDisjoint, IsClearOf, any_planned-clear,
}

module _ (organizations : List Organization) (uuid : ℕ → String) (organization_id : String) where
  one-AreClear :
      (w : Window) (manifest_id : String) (drawn now : ℕ) (intervals : List Interval)
      → All (IsClearOf organizations uuid organization_id w) intervals
      → All
          (AreClear w)
          (new_windows organizations uuid organization_id manifest_id drawn now intervals)
  unfolding new_windows
  one-AreClear w manifest_id drawn now [] h = tt
  one-AreClear w manifest_id drawn now (i ∷ intervals) (h, hs) =
      (h, one-AreClear w manifest_id (drawn + 1) now intervals hs)

  All-AreClear :
      (manifest_id : String) (drawn now : ℕ) (intervals : List Interval) (windows : List Window)
      → All (λ w. All (IsClearOf organizations uuid organization_id w) intervals) windows
      → All
          (λ w.
            All
              (AreClear w)
              (new_windows organizations uuid organization_id manifest_id drawn now intervals))
          windows
  All-AreClear manifest_id drawn now intervals [] h = tt
  All-AreClear manifest_id drawn now intervals (w ∷ windows) (h, hs) = (
    one-AreClear w manifest_id drawn now intervals h,
    All-AreClear manifest_id drawn now intervals windows hs,
  )

  abbrev OrderlyAfter : String × Ledger Evidence → Type 0
  OrderlyAfter (id, l') = IsOrderly l'.windows

  plan_or_replan-IsOrderly :
      (request_key operator code_sha : String) (intervals : List Interval) (now : ℕ)
      (l : Ledger Evidence) (previous : Option Manifest)
      → IsOrderly l.windows
      → All IsRange intervals
      → overlapping intervals ≡ false
      → Done OrderlyAfter (
          plan_or_replan organizations uuid organization_id request_key operator code_sha intervals
            now l previous)
  plan_or_replan-IsOrderly request_key operator code_sha intervals now l (some m) h r apart =
      refuse_if-Done OrderlyAfter _ _ _ λ same. reached h
  plan_or_replan-IsOrderly request_key operator code_sha intervals now l none h r apart =
      refuse_if-Done OrderlyAfter _ _ _ λ free. reached (
        AreDisjoint-append l.windows _ h.0
            (new_windows-AreDisjoint organizations uuid organization_id (uuid l.drawn) (l.drawn + 1)
              now intervals r apart)
            (All-AreClear (uuid l.drawn) (l.drawn + 1) now intervals l.windows
              (any_planned-clear organizations uuid organization_id intervals l.windows free)),
        All-append HasRange l.windows _ h.1 (
            new_windows-HasRange organizations uuid organization_id (uuid l.drawn) (l.drawn + 1) now
              intervals r),
      )

  abbrev pub AreApart : List Interval → Unit {0} → Type 0
  AreApart intervals u = All IsRange intervals × (overlapping intervals ≡ false)

  pub check_plan-AreApart :
      (request_key operator code_sha : String) (intervals : List Interval)
      → Done
          (AreApart intervals)
          (check_plan organizations uuid organization_id request_key operator code_sha intervals)
  check_plan-AreApart request_key operator code_sha intervals =
      let tenant = check_tenant organizations uuid organization_id in
      let apart_then =
        refuse_if (overlapping intervals) "Duplicate/overlapping provider intervals forbidden"
        >> tenant in
      let valid_then = validate_windows intervals >> apart_then in
      let some_then =
        refuse_if (no_interval intervals) "At least one window required" >> valid_then in
      >>-Done (AreApart intervals) (check_label request_key)
        (check_label operator >> (check_sha code_sha >> some_then))
        (>>-Done (AreApart intervals) (check_label operator) (check_sha code_sha >> some_then) (
          >>-Done (AreApart intervals) (check_sha code_sha) some_then (
            refuse_if-Done (AreApart intervals) (no_interval intervals)
              "At least one window required" valid_then
              λ some_window.
                >>=-Done (AreApart intervals) (validate_windows intervals) (λ u. apart_then)
                  λ u valid.
                    refuse_if-Done (AreApart intervals) (overlapping intervals)
                      "Duplicate/overlapping provider intervals forbidden" tenant
                      λ apart.
                        refuse_if-last (AreApart intervals)
                          (not (is_active_tenant organization_id organizations))
                          "Active MOR tenant required"
                          (λ active. (validate_windows-AreRanges intervals valid, apart)))))

  plan-IsOrderly :
      (request_key operator code_sha : String) (windows : List Interval) (now : ℕ)
      (l : Ledger Evidence)
      → IsOrderly l.windows
      → Done OrderlyAfter
          (plan organizations uuid organization_id request_key operator code_sha windows now l)
  unfolding plan
  plan-IsOrderly request_key operator code_sha windows now l h =
      let intervals = sort_intervals windows in
      >>=-Done OrderlyAfter
        (check_plan organizations uuid organization_id request_key operator code_sha intervals) _
        λ u checked.
          let apart =
            Done-at (AreApart intervals) _ checked
              (check_plan-AreApart request_key operator code_sha intervals) in
          plan_or_replan-IsOrderly request_key operator code_sha intervals now l
            (find_manifest organization_id request_key l.manifests) h apart.0 apart.1

module _ (organizations : List Organization) (uuid : ℕ → String)
    (fingerprint : Evidence → String) where
  Step-IsOrderly :
      (l l' : Ledger Evidence)
      → Step organizations uuid fingerprint l l'
      → IsOrderly l.windows
      → IsOrderly l'.windows
  Step-IsOrderly l l' (plans org key operator sha windows now id d) h =
      Done-at (OrderlyAfter organizations uuid org) _ d
        (plan-IsOrderly organizations uuid org key operator sha windows now l h)
  Step-IsOrderly l l' (begins org window_id key operator sha now result d) h =
      moved-IsOrderly l.windows l'.windows
        (Done-at (MovesTo organizations uuid fingerprint org IsNone (String × Bool) l) _ d
          (begin-MovesTo organizations uuid fingerprint org window_id key operator sha now l))
        h
  Step-IsOrderly l l' (ends org window_id attempt_id report checked_at now status d) h =
      moved-IsOrderly l.windows l'.windows
        (Done-at (MovesTo organizations uuid fingerprint org IsNone Status l) _ d (
          finish-MovesTo organizations uuid fingerprint org window_id attempt_id report checked_at
            now l))
        h
  Step-IsOrderly l l' (grants org window_id operator now d) h =
      moved-IsOrderly l.windows l'.windows
        (Done-at (λ l'. AllMove IsNone l.windows l'.windows) _ d
          (approve-Moves organizations uuid fingerprint org window_id operator now l))
        h

  -- Whatever operations are done, in whatever order and for whichever tenants: no two windows of a
  -- tenant have a day in common, and each window has at least one day and at most seven, if that held
  -- of the windows at first.
  pub Runs-IsOrderly :
      (l l' : Ledger Evidence)
      → Runs organizations uuid fingerprint l l'
      → IsOrderly l.windows
      → IsOrderly l'.windows
  Runs-IsOrderly l l' here h = h
  Runs-IsOrderly l l' (next {m} r s) h = Step-IsOrderly m l' s (Runs-IsOrderly l m r h)
