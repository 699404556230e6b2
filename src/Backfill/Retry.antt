-- ===== src/Backfill/Retry.antt =====
-- The retry of `plan` of chief-of-staff/backend/app/connectors/torqueai_backfill_control.py.
use mathlib.Core.Path.{subst}
use polaris_lab.Base.{
  find_first-append, ◌∙◌, neither, ℕ, ◌+◌, ◌≤◌, ◌&&◌, ◌||◌, not, ltb, leb, ◌==◌, String, true,
  false, Option, none, some, List, [], ◌∷◌, ◌++◌, All, str_eq, str_eq_refl, ◌≡◌, refl, sym, ap, ◌∙◌,
  inl, inr, Bool-cases, arith,
}
use polaris_lab.Backfill.Control.{passed, done, Done-at, >>=-eq-done}
use polaris_lab.Backfill.Tables.{Interval, Manifest, Window, Organization, Ledger}
use polaris_lab.Backfill.Reports.{Evidence}
use polaris_lab.Backfill.Plan.{
  is_manifest, insert_interval, sort_intervals, overlapping, same_intervals, any_planned,
  intervals_of, find_manifest, new_windows, replan, planned_ledger, plan_or_replan, check_plan,
  plan,
}
use polaris_lab.Backfill.Disjoint.{IsRange}
use polaris_lab.Backfill.Disjoint.Plans.{AreApart, check_plan-AreApart}

is_before : (a b c d : ℕ) → a ≤ b → leb c b ≡ false → (ltb a c || (a == c && leb b d)) ≡ true
is_before a b c d r apart = ground arith

insert_first :
    (i j : Interval) (intervals : List Interval)
    → IsRange i
    → leb j.date_from i.date_to ≡ false
    → insert_interval i (j ∷ intervals) ≡ i ∷ j ∷ intervals
insert_first i j intervals r apart =
    rw (is_before i.date_from i.date_to j.date_from j.date_to r.0 apart) refl

equal : (n : ℕ) → (n == n) ≡ true
equal n = ground arith

-- Intervals that are apart are in order.
sort_intervals-apart :
    (intervals : List Interval)
    → All IsRange intervals
    → overlapping intervals ≡ false
    → sort_intervals intervals ≡ intervals
unfolding sort_intervals overlapping
sort_intervals-apart [] r h = refl
sort_intervals-apart (i ∷ []) r h = refl
sort_intervals-apart (i ∷ j ∷ intervals) r h =
    let (apart, later) = neither (leb j.date_from i.date_to) (overlapping (j ∷ intervals)) h in
    let rest = sort_intervals-apart (j ∷ intervals) r.1 later in
    ap (insert_interval i) rest ∙ insert_first i j intervals r.0 apart

same_intervals_refl : (intervals : List Interval) → same_intervals intervals intervals ≡ true
same_intervals_refl [] = refl
same_intervals_refl (i ∷ intervals) =
    rw (equal i.date_from, equal i.date_to, same_intervals_refl intervals) refl

module _ (organization_id : String) where
  find_manifest-append :
      (request_key : String) (manifests : List Manifest) (m : Manifest)
      → find_manifest organization_id request_key manifests ≡ none
      → (str_eq m.organization_id organization_id && str_eq m.request_key request_key) ≡ true
      → find_manifest organization_id request_key (manifests ++ m ∷ []) ≡ some m
  find_manifest-append request_key manifests m h e =
      find_first-append (is_manifest organization_id request_key) manifests m ∙ rw (h, e) refl

  intervals_of-append :
      (id : String) (windows added : List Window)
      → All (λ w. str_eq w.manifest_id id ≡ false) windows
      → intervals_of organization_id id (windows ++ added) ≡ intervals_of organization_id id added
  intervals_of-append id [] added fresh = refl
  intervals_of-append id (w ∷ windows) added fresh =
      elim (Bool-cases (str_eq w.organization_id organization_id)) [
        | inl e ↦ rw (e, fresh.0) (intervals_of-append id windows added fresh.1)
        | inr e ↦ rw e (intervals_of-append id windows added fresh.1)
      ]

module _ (organizations : List Organization) (uuid : ℕ → String) (organization_id : String) where
  intervals_of-new :
      (id : String) (drawn now : ℕ) (intervals : List Interval)
      → intervals_of organization_id id
          (new_windows organizations uuid organization_id id drawn now intervals)
        ≡ intervals
  unfolding new_windows
  intervals_of-new id drawn now [] = refl
  intervals_of-new id drawn now (i ∷ intervals) =
      rw (str_eq_refl organization_id, str_eq_refl id)
        (ap (λ rest. i ∷ rest) (intervals_of-new id (drawn + 1) now intervals))

  -- The tenant has no window of the manifest whose id is drawn next.
  abbrev HasFreshId : Ledger Evidence → Type 0
  HasFreshId l = All (λ w. str_eq w.manifest_id (uuid l.drawn) ≡ false) l.windows

  replan_new :
      (request_key operator code_sha : String) (intervals : List Interval) (now : ℕ)
      (l : Ledger Evidence) (m : Manifest)
      → m.id ≡ uuid l.drawn
      → m.operator ≡ operator
      → m.code_sha ≡ code_sha
      → HasFreshId l
      → sort_intervals intervals ≡ intervals
      → replan organizations uuid organization_id operator code_sha intervals m (
          planned_ledger organizations uuid organization_id request_key operator code_sha intervals
            now l)
        ≡ done (
          uuid l.drawn,
          planned_ledger organizations uuid organization_id request_key operator code_sha intervals
              now l,
        )
  replan_new request_key operator code_sha intervals now l m e o c fresh sorted =
      let listed =
        intervals_of-append organization_id (uuid l.drawn) l.windows
          (new_windows organizations uuid organization_id (uuid l.drawn) (l.drawn + 1) now
            intervals)
          fresh
        ∙ intervals_of-new (uuid l.drawn) (l.drawn + 1) now intervals in
      rw
        (
          e,
          o,
          c,
          listed,
          sorted,
          same_intervals_refl intervals,
          str_eq_refl code_sha,
          str_eq_refl operator,
        )
        refl

  abbrev new_manifest : String → String → String → ℕ → Ledger Evidence → Manifest
  new_manifest request_key operator code_sha now l = record {
    id = uuid l.drawn;
    organization_id = organization_id;
    request_key = request_key;
    operator = operator;
    code_sha = code_sha;
    created_at = now;
  }

  plan_or_replan-again :
      (request_key operator code_sha : String) (intervals : List Interval) (now later : ℕ)
      (id : String) (l l' : Ledger Evidence) (previous : Option Manifest)
      → find_manifest organization_id request_key l.manifests ≡ previous
      → HasFreshId l
      → sort_intervals intervals ≡ intervals
      → plan_or_replan organizations uuid organization_id request_key operator code_sha intervals
          now l previous
        ≡ done (id, l')
      → plan_or_replan organizations uuid organization_id request_key operator code_sha intervals
          later l'
          (find_manifest organization_id request_key l'.manifests)
        ≡ done (id, l')
  plan_or_replan-again key operator sha intervals now later id l l' (some m) e fresh sorted h =
      let same =
        passed
          (not (
              same_intervals (sort_intervals (intervals_of organization_id m.id l.windows))
                intervals)
            || not (str_eq m.code_sha sha)
            || not (str_eq m.operator operator))
          "Request key reused with different plan" (m.id, l) (id, l') h in
      subst
        (λ p.
          plan_or_replan organizations uuid organization_id key operator sha intervals later p.1
            (find_manifest organization_id key p.1.manifests)
          ≡ done p)
        same (rw e (h ∙ ap done (sym same)))
  plan_or_replan-again key operator sha intervals now later id l l' none e fresh sorted h =
      let m = new_manifest key operator sha now l in
      let same =
        passed (any_planned organization_id intervals l.windows)
          "Tenant interval already planned; reuse its window ledger"
          (
            uuid l.drawn,
            planned_ledger organizations uuid organization_id key operator sha intervals now l,
          )
          (id, l') h in
      let found =
        find_manifest-append organization_id key l.manifests m e
          (rw (str_eq_refl organization_id, str_eq_refl key) refl) in
      subst
        (λ p.
          plan_or_replan organizations uuid organization_id key operator sha intervals later p.1
            (find_manifest organization_id key p.1.manifests)
          ≡ done p)
        same (rw found (replan_new key operator sha intervals now l m refl refl refl fresh sorted))

  -- A plan can be tried again: with the same request key, operator, code and windows, whenever it is, the
  -- second call returns the manifest of the first and leaves the ledger as the first left it. This is where
  -- the id that the first call draws is not yet that of a manifest with windows.
  pub plan_again :
      (request_key operator code_sha : String) (windows : List Interval) (now later : ℕ)
      (id : String) (l l' : Ledger Evidence)
      → HasFreshId l
      → plan organizations uuid organization_id request_key operator code_sha windows now l
        ≡ done (id, l')
      → plan organizations uuid organization_id request_key operator code_sha windows later l'
        ≡ done (id, l')
  unfolding plan
  plan_again request_key operator code_sha windows now later id l l' fresh h =
      let intervals = sort_intervals windows in
      let check =
        check_plan organizations uuid organization_id request_key operator code_sha intervals in
      let (u, checked, planned) =
        >>=-eq-done check
          (λ u.
            plan_or_replan organizations uuid organization_id request_key operator code_sha
              intervals now l (find_manifest organization_id request_key l.manifests))
          h in
      let apart = Done-at (AreApart organizations uuid organization_id intervals) check checked (
        check_plan-AreApart organizations uuid organization_id request_key operator code_sha
          intervals) in
      rw checked (
        plan_or_replan-again request_key operator code_sha intervals now later id l l'
          (find_manifest organization_id request_key l.manifests) refl fresh
          (sort_intervals-apart intervals apart.0 apart.1) planned)
