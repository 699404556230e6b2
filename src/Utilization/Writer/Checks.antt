-- ===== src/Utilization/Writer/Checks.antt =====
-- What a batch satisfies that passed the validation of
-- chief-of-staff/backend/app/motive/vehicle_utilization_writer.py.
use mathlib.Core.Path.{subst}
use polaris_lab.Base.{
  sym, not, ◌≤◌, String, Bool, true, false, Option, none, some, List, [], ◌∷◌, ◌++◌, ==→eq, eq_iff,
  contains, All, Nodup, Nodup-snoc, ◌≡◌, refl, ◌∙◌, arith,
}
use polaris_lab.Outcome.{ok-inj, Result, ok, >>=-eq-ok, raise_if-eq-ok}
use polaris_lab.Utilization.Rollup.{Date, Rollup, parser_version_v1, vehicle_utilization_endpoint}
use polaris_lab.Utilization.UnitPolicy.{
  UnitRequestMode, unit_persistence_readiness, metric, imperial, account_default,
  canonical_writer_metric_units,
}
use polaris_lab.Utilization.Pages.Page.{vehicle_ids}
use mathlib.Core.List.{append_assoc, append-nil}
use polaris_lab.Utilization.Writer.Validate.{
  Batch, is_blank, for_each, validate_request_context, normalize_ids, some_selected,
  validate_selected_vehicle_ids, validate_rollup_structure, validate_rollup_organization_context,
  check_window, validate_rollup_request_window, validate_no_duplicates, validate_returned_vehicle,
  validate_unit_context, validate_parser_and_source, validate_batch, units_value,
}

-- The indicator says which units the vehicle reports in, and it is the system that the mode forces,
-- metric without a mode.
abbrev AreUnitsKnown : Option UnitRequestMode → Option Bool → Type 0
AreUnitsKnown none units = units ≡ some true
AreUnitsKnown (some metric) units = units ≡ some true
AreUnitsKnown (some imperial) units = units ≡ some false
AreUnitsKnown (some account_default) units = (b : Bool) × (units ≡ some b)

-- A rollup that belongs to the batch's tenant, window and selection, with known provenance.
pub record IsCertified (b : Batch) (r : Rollup) : Type 0 where
  pub named : is_blank r.provider_vehicle_id ≡ false
  pub tenant : r.organization_id ≡ b.organization_id
  pub slug : r.organization_slug ≡ b.organization_slug
  pub begins : r.request_start_date ≡ some b.request_window_start
  pub ends : r.request_end_date ≡ some b.request_window_end
  pub chosen : contains r.provider_vehicle_id b.selected_provider_vehicle_ids ≡ true
  pub units : AreUnitsKnown b.unit_request_mode r.metric_units
  pub version : r.parser_version ≡ parser_version_v1
  pub source : r.source_endpoint ≡ vehicle_utilization_endpoint

pub record IsValid (b : Batch) : Type 0 where
  pub ordered : b.request_window_start ≤ b.request_window_end
  pub distinct_selected : Nodup b.selected_provider_vehicle_ids
  pub distinct_returned : Nodup (vehicle_ids b.rollups)
  pub certified : All (IsCertified b) b.rollups

All-for_each {ℓ} :
    {A : Type ℓ} (check : A → Result (Unit {0})) (xs : List A)
    → for_each check xs ≡ ok tt
    → All (λ x. check x ≡ ok tt) xs
unfolding for_each
All-for_each check [] h = tt
All-for_each check (x ∷ xs) h =
    let got = >>=-eq-ok (check x) (λ _. for_each check xs) h in (got.1, All-for_each check xs got.2)

normalize_ids-eq :
    (seen ids selected : List String)
    → Nodup seen
    → normalize_ids seen ids ≡ ok selected
    → (selected ≡ seen ++ ids) × Nodup selected
unfolding normalize_ids
normalize_ids-eq seen [] selected n h = ground (arith, append-nil seen)
normalize_ids-eq seen (x ∷ ids) selected n h = ground (
  arith,
  append_assoc seen (x ∷ []) ids,
  Nodup-snoc seen x n,
  normalize_ids-eq (seen ++ x ∷ []) ids selected,
)

validate_no_duplicates-Nodup :
    (seen : List String) (rs : List Rollup)
    → Nodup seen
    → validate_no_duplicates seen rs ≡ ok tt
    → Nodup (seen ++ vehicle_ids rs)
unfolding validate_no_duplicates
validate_no_duplicates-Nodup seen [] n h = ground (arith, append-nil seen)
validate_no_duplicates-Nodup seen (r ∷ rs) n h = ground (
  arith,
  append_assoc seen (r.provider_vehicle_id ∷ []) (vehicle_ids rs),
  Nodup-snoc seen r.provider_vehicle_id n,
  validate_no_duplicates-Nodup (seen ++ r.provider_vehicle_id ∷ []) rs,
)

units-known_at :
    (mode : Option UnitRequestMode) (units : Option Bool)
    → not
        (unit_persistence_readiness
          (units_value units)
          canonical_writer_metric_units
          mode).ready_for_durable_persistence
      ≡ false
    → AreUnitsKnown mode units
unfolding unit_persistence_readiness
units-known_at none units h = ground arith
units-known_at (some metric) units h = ground arith
units-known_at (some imperial) units h = ground arith
units-known_at (some account_default) none h = cc
units-known_at (some account_default) (some b) h = (b, refl)

units-known :
    (mode : Option UnitRequestMode) (r : Rollup)
    → validate_unit_context mode r ≡ ok tt
    → AreUnitsKnown mode r.metric_units
unfolding validate_unit_context unit_persistence_readiness
units-known mode r h = units-known_at mode r.metric_units (raise_if-eq-ok _ _ h)

window-eq :
    (a b : Date) (c d : Option Date) → check_window a b c d ≡ ok tt → (c ≡ some a) × (d ≡ some b)
window-eq a b none d h = cc
window-eq a b (some c) none h = cc
window-eq a b (some c) (some d) h = ground (arith, ==→eq c a, ==→eq d b)

All-IsCertified :
    (b : Batch) (rs : List Rollup)
    → All (λ r. validate_rollup_structure r ≡ ok tt) rs
    → All
        (λ r. validate_rollup_organization_context b.organization_id b.organization_slug r ≡ ok tt)
        rs
    → All
        (λ r. validate_rollup_request_window b.request_window_start b.request_window_end r ≡ ok tt)
        rs
    → All (λ r. validate_returned_vehicle b.selected_provider_vehicle_ids r ≡ ok tt) rs
    → All (λ r. validate_unit_context b.unit_request_mode r ≡ ok tt) rs
    → All (λ r. validate_parser_and_source r ≡ ok tt) rs
    → All (IsCertified b) rs
unfolding validate_rollup_structure validate_rollup_organization_context
    validate_rollup_request_window validate_returned_vehicle validate_parser_and_source
All-IsCertified b [] h1 h2 h3 h4 h5 h6 = tt
All-IsCertified b (r ∷ rs) h1 h2 h3 h4 h5 h6 = (
  record {
    named = ground arith;
    tenant = ground (arith, eq_iff r.organization_id b.organization_id);
    slug = ground (arith, eq_iff r.organization_slug b.organization_slug);
    begins =
        (window-eq b.request_window_start b.request_window_end r.request_start_date
          r.request_end_date h3.0).0;
    ends =
        (window-eq b.request_window_start b.request_window_end r.request_start_date
          r.request_end_date h3.0).1;
    chosen = ground arith;
    units = units-known b.unit_request_mode r h5.0;
    version = ground (arith, eq_iff r.parser_version parser_version_v1);
    source = ground (arith, eq_iff r.source_endpoint vehicle_utilization_endpoint);
  },
  All-IsCertified b rs h1.1 h2.1 h3.1 h4.1 h5.1 h6.1,
)

some_selected-eq : (ids selected : List String) → some_selected ids ≡ ok selected → selected ≡ ids
some_selected-eq [] selected h = cc
some_selected-eq (id ∷ ids) selected h = cc

selected-eq :
    (ids selected : List String)
    → validate_selected_vehicle_ids ids ≡ ok selected
    → (selected ≡ ids) × Nodup selected
unfolding validate_selected_vehicle_ids
selected-eq ids selected h =
    let got = >>=-eq-ok (normalize_ids [] ids) some_selected h in
    let same = some_selected-eq got.0 selected got.2 in
    let norm = normalize_ids-eq [] ids got.0 tt got.1 in
    (same ∙ norm.0, subst Nodup (sym same) norm.1)

window-ordered : (o s : String) (a b : Date) → validate_request_context o s a b ≡ ok tt → a ≤ b
unfolding validate_request_context
window-ordered o s a b h = ground arith

pub validate_batch-IsValid :
    (b : Batch) (selected : List String)
    → validate_batch b ≡ ok selected
    → IsValid b × (selected ≡ b.selected_provider_vehicle_ids)
unfolding validate_batch
validate_batch-IsValid b selected h =
    let context =
      >>=-eq-ok
        (validate_request_context b.organization_id b.organization_slug b.request_window_start
          b.request_window_end)
        _ h in
    let chosen =
      >>=-eq-ok (validate_selected_vehicle_ids b.selected_provider_vehicle_ids) _ context.2 in
    let structure = >>=-eq-ok (for_each validate_rollup_structure b.rollups) _ chosen.2 in
    let tenant =
      >>=-eq-ok
        (for_each (validate_rollup_organization_context b.organization_id b.organization_slug)
          b.rollups)
        _ structure.2 in
    let window =
      >>=-eq-ok
        (for_each (validate_rollup_request_window b.request_window_start b.request_window_end)
          b.rollups)
        _ tenant.2 in
    let distinct = >>=-eq-ok (validate_no_duplicates [] b.rollups) _ window.2 in
    let within = >>=-eq-ok (for_each (validate_returned_vehicle chosen.0) b.rollups) _ distinct.2 in
    let units =
      >>=-eq-ok (for_each (validate_unit_context b.unit_request_mode) b.rollups) _ within.2 in
    let source = >>=-eq-ok (for_each validate_parser_and_source b.rollups) _ units.2 in
    let same = selected-eq b.selected_provider_vehicle_ids chosen.0 chosen.1 in
    (
      record {
        ordered =
            window-ordered b.organization_id b.organization_slug b.request_window_start
              b.request_window_end context.1;
        distinct_selected = subst Nodup same.0 same.1;
        distinct_returned = validate_no_duplicates-Nodup [] b.rollups tt distinct.1;
        certified =
            All-IsCertified b b.rollups (All-for_each _ b.rollups structure.1)
              (All-for_each _ b.rollups tenant.1) (All-for_each _ b.rollups window.1)
              (All-for_each _ b.rollups (
                subst (λ ids. for_each (validate_returned_vehicle ids) b.rollups ≡ ok tt) same.0
                  within.1))
              (All-for_each _ b.rollups units.1) (All-for_each _ b.rollups source.1);
      },
      sym (ok-inj source.2) ∙ same.0,
    )
