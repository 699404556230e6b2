-- ===== src/Backfill/Disjoint.antt =====
-- The days of the windows that
-- chief-of-staff/backend/app/connectors/torqueai_backfill_control.py plans.
pub mod Ranges
pub mod Plans
use polaris_lab.Base.{
  not, ℕ, ◌+◌, ◌≤◌, ◌<◌, ◌&&◌, ◌||◌, leb, String, Bool, false, Option, none, some, List, [], ◌∷◌,
  ◌++◌, All, All-append, str_eq, ◌≡◌, refl, ◌⊎◌, inl, inr, Bool-cases, leb-false, arith,
}
use polaris_lab.Backfill.Control.{
  refuse_if-last, done, ◌>>◌, check_label, check_sha, refuse_if, >>=-eq-done, Done, reached,
  Done-at, refuse_if-Done, >>-Done, >>=-Done,
}
use polaris_lab.Backfill.Tables.{Status, Interval, Manifest, Window, Organization, Ledger}
use polaris_lab.Backfill.Reports.{Evidence}
use polaris_lab.Backfill.Plan.{
  validate_window, validate_windows, overlapping, sort_intervals, overlaps_window, any_planned,
  find_manifest, check_tenant, no_interval, is_active_tenant, new_windows, plan_or_replan,
  check_plan, plan, new_window,
}
use polaris_lab.Backfill.Moves.{Moves, stays, claims, finishes, approves, AllMove, IsNone}
use polaris_lab.Backfill.Steps.{Step, plans, begins, ends, grants, Runs, here, next}
use polaris_lab.Backfill.Moves.Calls.{MovesTo, begin-MovesTo, finish-MovesTo, approve-Moves}

-- At least one day and at most seven.
abbrev pub IsRange : Interval → Type 0
IsRange i = (i.date_from ≤ i.date_to) × (i.date_to < i.date_from + 7)

abbrev pub HasRange : Window → Type 0
HasRange w = IsRange w.interval

-- Two windows of a tenant have no day in common.
abbrev pub AreClear : Window → Window → Type 0
AreClear w v =
    (str_eq w.organization_id v.organization_id ≡ false)
    ⊎ (w.interval.date_to < v.interval.date_from)
    ⊎ (v.interval.date_to < w.interval.date_from)

abbrev pub AreDisjoint : List Window → Type 0
AreDisjoint [] = Unit
AreDisjoint (w ∷ windows) = All (AreClear w) windows × AreDisjoint windows

-- What moves leave alone.
abbrev IsSameDays : Window → Window → Type 0
IsSameDays w w' = (w'.interval ≡ w.interval) × (w'.organization_id ≡ w.organization_id)

Moves-IsSameDays : (w w' : Window) → Moves w w' → IsSameDays w w'
Moves-IsSameDays w w' (stays e) = rw e (refl, refl)
Moves-IsSameDays w w' (claims a now u l e) = rw e (refl, refl)
Moves-IsSameDays w w' (finishes a s c now v k l e) = rw e (refl, refl)
Moves-IsSameDays w w' (approves o now p e) = rw e (refl, refl)

AreClear-moved :
    (v v' w w' : Window) → IsSameDays v v' → IsSameDays w w' → AreClear v w → AreClear v' w'
AreClear-moved v v' w w' (vi, vo) (wi, wo) h = rw (vi, vo, wi, wo) h

All-moved :
    (v v' : Window) (windows windows' : List Window)
    → IsSameDays v v'
    → AllMove IsNone windows windows'
    → All (AreClear v) windows
    → All (AreClear v') windows'
All-moved v v' [] [] same m h = tt
All-moved v v' [] (w' ∷ windows') same m h = elim m [ ]
All-moved v v' (w ∷ windows) [] same m h = elim m [ ]
All-moved v v' (w ∷ windows) (w' ∷ windows') same (m, ms) (h, hs) = (
  AreClear-moved v v' w w' same (Moves-IsSameDays w w' m) h,
  All-moved v v' windows windows' same ms hs,
)

abbrev pub IsOrderly : List Window → Type 0
IsOrderly windows = AreDisjoint windows × All HasRange windows

pub moved-IsOrderly :
    (windows windows' : List Window)
    → AllMove IsNone windows windows'
    → IsOrderly windows
    → IsOrderly windows'
moved-IsOrderly [] [] m h = h
moved-IsOrderly [] (w' ∷ windows') m h = elim m [ ]
moved-IsOrderly (w ∷ windows) [] m h = elim m [ ]
moved-IsOrderly (w ∷ windows) (w' ∷ windows') (m, ms) ((clear, rest), (range, ranges)) =
    let same = Moves-IsSameDays w w' m in
    let below = moved-IsOrderly windows windows' ms (rest, ranges) in
    ((All-moved w w' windows windows' same ms clear, below.0), (rw same.0 range, below.1))

pub AreDisjoint-append :
    (xs ys : List Window)
    → AreDisjoint xs
    → AreDisjoint ys
    → All (λ x. All (AreClear x) ys) xs
    → AreDisjoint (xs ++ ys)
AreDisjoint-append [] ys h k c = k
AreDisjoint-append (x ∷ xs) ys (h, hs) k (c, cs) =
    (All-append (AreClear x) xs ys h c, AreDisjoint-append xs ys hs k cs)

validate_window-IsRange : (i : Interval) {u : Unit {0}} → validate_window i ≡ done u → IsRange i
unfolding validate_window
validate_window-IsRange i h = ground arith

pub validate_windows-AreRanges :
    (intervals : List Interval) {u : Unit {0}}
    → validate_windows intervals ≡ done u
    → All IsRange intervals
unfolding validate_windows
validate_windows-AreRanges [] h = tt
validate_windows-AreRanges (i ∷ intervals) h =
    let (u, first, rest) = >>=-eq-done (validate_window i) (λ u. validate_windows intervals) h in
    (validate_window-IsRange i first, validate_windows-AreRanges intervals rest)

pub rest_apart :
    (i : Interval) (intervals : List Interval)
    → overlapping (i ∷ intervals) ≡ false
    → overlapping intervals ≡ false
unfolding overlapping
rest_apart i [] h = refl
rest_apart i (j ∷ intervals) h = ground arith

begins_after :
    (i j : Interval) (intervals : List Interval)
    → overlapping (i ∷ j ∷ intervals) ≡ false
    → i.date_to < j.date_from
unfolding overlapping
begins_after i j intervals h = ground arith

weaken :
    (a b : ℕ) (intervals : List Interval)
    → a ≤ b
    → All (λ j. b < j.date_from) intervals
    → All (λ j. a < j.date_from) intervals
weaken a b [] le h = tt
weaken a b (j ∷ intervals) le (h, hs) = (omega (arith, h, le), weaken a b intervals le hs)

-- In an ordered list of ranges with no overlap, each ends before every later one begins.
pub later_begin :
    (i : Interval) (intervals : List Interval)
    → All IsRange intervals
    → overlapping (i ∷ intervals) ≡ false
    → All (λ j. i.date_to < j.date_from) intervals
unfolding overlapping
later_begin i [] r h = tt
later_begin i (j ∷ intervals) (r, rs) h =
    let before : i.date_to < j.date_from = begins_after i j intervals h in
    (
      before,
      weaken i.date_to j.date_to intervals (omega (arith, before, r.0))
          (later_begin j intervals rs (rest_apart i (j ∷ intervals) h)),
    )
