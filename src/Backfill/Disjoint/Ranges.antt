-- ===== src/Backfill/Disjoint/Ranges.antt =====
-- The windows of a new plan against each other and against what is planned,
-- chief-of-staff/backend/app/connectors/torqueai_backfill_control.py.
use polaris_lab.Base.{
  neither, ℕ, ◌+◌, ◌<◌, ◌&&◌, leb, String, false, List, [], ◌∷◌, All, str_eq, ◌≡◌, ◌⊎◌, inl, inr,
  Bool-cases, leb-false, arith,
}
use polaris_lab.Backfill.Tables.{Interval, Window, Organization}
use polaris_lab.Backfill.Plan.{overlapping, overlaps_window, any_planned, new_windows, new_window}
use polaris_lab.Backfill.Disjoint.{
  IsRange, HasRange, AreClear, AreDisjoint, rest_apart, later_begin,
}

module _ (organizations : List Organization) (uuid : ℕ → String) (organization_id : String) where
  pub new_windows-HasRange :
      (manifest_id : String) (drawn now : ℕ) (intervals : List Interval)
      → All IsRange intervals
      → All HasRange
          (new_windows organizations uuid organization_id manifest_id drawn now intervals)
  unfolding new_windows
  new_windows-HasRange manifest_id drawn now [] h = tt
  new_windows-HasRange manifest_id drawn now (i ∷ intervals) (h, hs) =
      (h, new_windows-HasRange manifest_id (drawn + 1) now intervals hs)

  new_windows-after :
      (w : Window) (manifest_id : String) (drawn now : ℕ) (intervals : List Interval)
      → All (λ j. w.interval.date_to < j.date_from) intervals
      → All
          (AreClear w)
          (new_windows organizations uuid organization_id manifest_id drawn now intervals)
  unfolding new_windows
  new_windows-after w manifest_id drawn now [] h = tt
  new_windows-after w manifest_id drawn now (i ∷ intervals) (h, hs) =
      (inr (inl h), new_windows-after w manifest_id (drawn + 1) now intervals hs)

  pub new_windows-AreDisjoint :
      (manifest_id : String) (drawn now : ℕ) (intervals : List Interval)
      → All IsRange intervals
      → overlapping intervals ≡ false
      → AreDisjoint (new_windows organizations uuid organization_id manifest_id drawn now intervals)
  unfolding new_windows
  new_windows-AreDisjoint manifest_id drawn now [] r h = tt
  new_windows-AreDisjoint manifest_id drawn now (i ∷ intervals) (r, rs) h = (
    new_windows-after (new_window organizations uuid organization_id manifest_id drawn now i)
        manifest_id (drawn + 1) now intervals (later_begin i intervals rs h),
    new_windows-AreDisjoint manifest_id (drawn + 1) now intervals rs (rest_apart i intervals h),
  )

  -- A window has no day of the interval, or it is another tenant's.
  abbrev pub IsClearOf : Window → Interval → Type 0
  IsClearOf w i =
      (str_eq w.organization_id organization_id ≡ false)
      ⊎ (w.interval.date_to < i.date_from)
      ⊎ (i.date_to < w.interval.date_from)

  one_clear :
      (w : Window) (i : Interval)
      → (str_eq w.organization_id organization_id
          && leb w.interval.date_from i.date_to
          && leb i.date_from w.interval.date_to)
        ≡ false
      → IsClearOf w i
  one_clear w i h = elim (Bool-cases (str_eq w.organization_id organization_id)) [
    | inr other ↦ inl other
    | inl own ↦ elim (Bool-cases (leb w.interval.date_from i.date_to)) [
      | inr after ↦ inr (inr (leb-false w.interval.date_from i.date_to after))
      | inl begun ↦ inr (inl (leb-false i.date_from w.interval.date_to (ground arith)))
    ]
  ]

  overlaps-clear :
      (i : Interval) (windows : List Window)
      → overlaps_window organization_id i windows ≡ false
      → All (λ w. IsClearOf w i) windows
  unfolding overlaps_window
  overlaps-clear i [] h = tt
  overlaps-clear i (w ∷ windows) h =
      let parts = neither _ (overlaps_window organization_id i windows) h in
      (one_clear w i parts.0, overlaps-clear i windows parts.1)

  zip_clear :
      (i : Interval) (intervals : List Interval) (windows : List Window)
      → All (λ w. IsClearOf w i) windows
      → All (λ w. All (IsClearOf w) intervals) windows
      → All (λ w. All (IsClearOf w) (i ∷ intervals)) windows
  zip_clear i intervals [] h k = tt
  zip_clear i intervals (w ∷ windows) (h, hs) (k, ks) =
      ((h, k), zip_clear i intervals windows hs ks)

  nothing_clear : (windows : List Window) → All (λ w. All (IsClearOf w) []) windows
  nothing_clear [] = tt
  nothing_clear (w ∷ windows) = (tt, nothing_clear windows)

  pub any_planned-clear :
      (intervals : List Interval) (windows : List Window)
      → any_planned organization_id intervals windows ≡ false
      → All (λ w. All (IsClearOf w) intervals) windows
  unfolding any_planned
  any_planned-clear [] windows h = nothing_clear windows
  any_planned-clear (i ∷ intervals) windows h =
      let parts = neither (overlaps_window organization_id i windows) _ h in
      zip_clear i intervals windows (overlaps-clear i windows parts.0)
        (any_planned-clear intervals windows parts.1)
