-- ===== src/Backfill/Plan.antt =====
-- `plan` of chief-of-staff/backend/app/connectors/torqueai_backfill_control.py, with `_validate_window` of
-- chief-of-staff/backend/app/connectors/torqueai_ingestion.py: the windows of a manifest, no two of a
-- tenant with a day in common. `uuid n` is the n-th id that the generator draws.
use polaris_lab.Base.{
  find_first, ℕ, ◌+◌, ◌-◌, String, Bool, true, false, ◌&&◌, ◌||◌, not, Option, none, some, List, [],
  ◌∷◌, ◌++◌, ltb, leb, ◌==◌, str_eq, length, if◌then◌else◌,
}
use polaris_lab.Backfill.Control.{Controlled, done, ◌>>◌, refuse_if, check_label, check_sha}
use polaris_lab.Backfill.Tables.{Interval, planned, Manifest, Window, Organization, Ledger}
use polaris_lab.Backfill.Reports.{Evidence}
use polaris_lab.Backfill.Evidence.{same_interval}

abbrev ingest_max_range_days : ℕ
ingest_max_range_days = 7

-- `_validate_window`
unfoldable pub validate_window : Interval → Controlled (Unit {0})
validate_window i = do
  refuse_if (ltb i.date_to i.date_from) "TorqueAI from date must not be after to date"
  refuse_if (ltb ingest_max_range_days (i.date_to - i.date_from + 1))
      "TorqueAI ingestion range must not exceed 7 days"

-- The order of pairs of dates.
abbrev comes_first : Interval → Interval → Bool
comes_first i j =
    ltb i.date_from j.date_from || (i.date_from == j.date_from && leb i.date_to j.date_to)

abbrev pub insert_interval : Interval → List Interval → List Interval
insert_interval i [] = i ∷ []
insert_interval i (j ∷ intervals) =
    let rest = insert_interval i intervals in
    if comes_first i j then i ∷ j ∷ intervals else j ∷ rest

-- `sorted(windows)`
unfoldable pub sort_intervals : List Interval → List Interval
sort_intervals [] = []
sort_intervals (i ∷ intervals) = insert_interval i (sort_intervals intervals)

unfoldable pub validate_windows : List Interval → Controlled (Unit {0})
validate_windows [] = done tt
validate_windows (i ∷ intervals) = validate_window i >> validate_windows intervals

-- Some interval begins before the one that it follows has ended.
unfoldable pub overlapping : List Interval → Bool
overlapping [] = false
overlapping (i ∷ []) = false
overlapping (i ∷ j ∷ intervals) = leb j.date_from i.date_to || overlapping (j ∷ intervals)

abbrev pub no_interval : List Interval → Bool
no_interval [] = true
no_interval (_ ∷ _) = false

abbrev pub same_intervals : List Interval → List Interval → Bool
same_intervals [] [] = true
same_intervals (i ∷ is) (j ∷ js) = same_interval i j && same_intervals is js
same_intervals _ _ = false

-- The query for a window of the tenant with a day in common.
unfoldable pub overlaps_window : String → Interval → List Window → Bool
overlaps_window organization_id i [] = false
overlaps_window organization_id i (w ∷ windows) =
    (str_eq w.organization_id organization_id
      && leb w.interval.date_from i.date_to
      && leb i.date_from w.interval.date_to)
    || overlaps_window organization_id i windows

unfoldable pub any_planned : String → List Interval → List Window → Bool
any_planned organization_id [] windows = false
any_planned organization_id (i ∷ intervals) windows =
    overlaps_window organization_id i windows || any_planned organization_id intervals windows

-- The intervals of a manifest, as its query returns them before they are ordered.
abbrev pub intervals_of : String → String → List Window → List Interval
intervals_of organization_id manifest_id [] = []
intervals_of organization_id manifest_id (w ∷ windows) =
    let rest = intervals_of organization_id manifest_id windows in
    if str_eq w.organization_id organization_id && str_eq w.manifest_id manifest_id
    then w.interval ∷ rest
    else rest

abbrev pub is_manifest : String → String → Manifest → Bool
is_manifest organization_id request_key m =
    str_eq m.organization_id organization_id && str_eq m.request_key request_key

abbrev pub find_manifest : String → String → List Manifest → Option Manifest
find_manifest organization_id request_key manifests =
    find_first (is_manifest organization_id request_key) manifests

-- `_tenant`
abbrev pub is_active_tenant : String → List Organization → Bool
is_active_tenant organization_id [] = false
is_active_tenant organization_id (o ∷ organizations) =
    (str_eq o.id organization_id && str_eq o.slug "mor-logistics" && str_eq o.status "active")
    || is_active_tenant organization_id organizations

module _ (organizations : List Organization) (uuid : ℕ → String) (organization_id : String) where
  abbrev pub check_tenant : Controlled (Unit {0})
  check_tenant =
      refuse_if (not (is_active_tenant organization_id organizations)) "Active MOR tenant required"

  abbrev pub new_window : String → ℕ → ℕ → Interval → Window
  new_window manifest_id drawn now i = record {
    id = uuid drawn;
    organization_id = organization_id;
    manifest_id = manifest_id;
    interval = i;
    status = planned;
    created_at = now;
    started_at = none;
    completed_at = none;
    approved_at = none;
    approved_by = none;
    active_attempt_id = none;
    lease_until = none;
  }

  unfoldable pub new_windows : String → ℕ → ℕ → List Interval → List Window
  new_windows manifest_id drawn now [] = []
  new_windows manifest_id drawn now (i ∷ intervals) =
      new_window manifest_id drawn now i ∷ new_windows manifest_id (drawn + 1) now intervals

  -- The retry of a plan.
  abbrev pub replan :
      String
      → String
      → List Interval
      → Manifest
      → Ledger Evidence
      → Controlled (String × Ledger Evidence)
  replan operator code_sha intervals previous l = do
    let stored = sort_intervals (intervals_of organization_id previous.id l.windows)
    refuse_if
        (not (same_intervals stored intervals)
          || not (str_eq previous.code_sha code_sha)
          || not (str_eq previous.operator operator))
        "Request key reused with different plan"
    done (previous.id, l)

  abbrev pub planned_ledger :
      String → String → String → List Interval → ℕ → Ledger Evidence → Ledger Evidence
  planned_ledger request_key operator code_sha intervals now l = record l {
    manifests =
        l.manifests
        ++ record {
          id = uuid l.drawn;
          organization_id = organization_id;
          request_key = request_key;
          operator = operator;
          code_sha = code_sha;
          created_at = now;
        }
          ∷ [];
    windows = l.windows ++ new_windows (uuid l.drawn) (l.drawn + 1) now intervals;
    drawn = l.drawn + 1 + length intervals;
  }

  abbrev plan_new :
      String
      → String
      → String
      → List Interval
      → ℕ
      → Ledger Evidence
      → Controlled (String × Ledger Evidence)
  plan_new request_key operator code_sha intervals now l = do
    refuse_if (any_planned organization_id intervals l.windows)
        "Tenant interval already planned; reuse its window ledger"
    done (uuid l.drawn, planned_ledger request_key operator code_sha intervals now l)

  abbrev pub plan_or_replan :
      String
      → String
      → String
      → List Interval
      → ℕ
      → Ledger Evidence
      → Option Manifest
      → Controlled (String × Ledger Evidence)
  plan_or_replan request_key operator code_sha intervals now l (some previous) =
      replan operator code_sha intervals previous l
  plan_or_replan request_key operator code_sha intervals now l none =
      plan_new request_key operator code_sha intervals now l

  abbrev pub check_plan : String → String → String → List Interval → Controlled (Unit {0})
  check_plan request_key operator code_sha intervals = do
    check_label request_key
    check_label operator
    check_sha code_sha
    refuse_if (no_interval intervals) "At least one window required"
    validate_windows intervals
    refuse_if (overlapping intervals) "Duplicate/overlapping provider intervals forbidden"
    check_tenant

  -- `plan`
  unfoldable pub plan :
      String
      → String
      → String
      → List Interval
      → ℕ
      → Ledger Evidence
      → Controlled (String × Ledger Evidence)
  plan request_key operator code_sha windows now l = do
    let intervals = sort_intervals windows
    check_plan request_key operator code_sha intervals
    plan_or_replan request_key operator code_sha intervals now l
        (find_manifest organization_id request_key l.manifests)
