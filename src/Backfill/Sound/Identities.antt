-- ===== src/Backfill/Sound/Identities.antt =====
-- The loop over the identities in `_preview_evidence` of
-- chief-of-staff/backend/app/connectors/torqueai_backfill_control.py.
use polaris_lab.Base.{
  neither, ℕ, ◌≤◌, ◌&&◌, ◌||◌, not, ltb, String, Bool, true, false, List, [], ◌∷◌, All, contains,
  ◌≡◌, refl, ◌⊎◌, inl, inr, arith,
}
use polaris_lab.Backfill.Control.{
  refuse_if-last, Done, reached, Done-at, refuse_if-Done, >>-Done, >>=-Done, Done-map,
}
use polaris_lab.Backfill.Reports.{ReportedIdentity}
use polaris_lab.Backfill.Evidence.{
  same_key, is_seen, is_counted, is_conflict, distinct_count, any_bad_order, is_nil, bad_conflicts,
  check_identity, check_identities,
}
use polaris_lab.Backfill.Sound.{AreDistinct, IsJustified}

is_nil-eq : (values : List String) → is_nil values ≡ true → values ≡ []
is_nil-eq [] h = refl
is_nil-eq (v ∷ values) h = cc

conflict_cases :
    (bad conflict few own none_named : Bool)
    → (bad || (conflict && (few || not own)) || (not conflict && not none_named)) ≡ false
    → ((conflict ≡ true) × (few ≡ false) × (own ≡ true))
      ⊎ ((conflict ≡ false) × (none_named ≡ true))
conflict_cases bad conflict few own none_named h = ground arith

at_least_two : (k : ℕ) → ltb k 2 ≡ false → 2 ≤ k
at_least_two k h = ground arith

bad_conflicts-IsJustified : (i : ReportedIdentity) → bad_conflicts i ≡ false → IsJustified i
bad_conflicts-IsJustified i h =
    elim (conflict_cases (any_bad_order i.conflicting_order_numbers) (is_conflict i.classification)
      (ltb (distinct_count i.conflicting_order_numbers) 2)
      (contains i.provider_order_number i.conflicting_order_numbers)
      (is_nil i.conflicting_order_numbers) h) [
        | inl (conflict, few, own) ↦ inl (conflict, at_least_two _ few, own)
        | inr (clear, none_named) ↦ inr (clear, is_nil-eq i.conflicting_order_numbers none_named)
      ]

abbrev pub AreNew : List ReportedIdentity → List ReportedIdentity → Unit {0} → Type 0
AreNew identities seen u =
    All (λ i. is_seen i seen ≡ false) identities
    × AreDistinct identities
    × All IsJustified identities

All-unseen :
    (i : ReportedIdentity) (identities seen : List ReportedIdentity)
    → All (λ j. is_seen j (i ∷ seen) ≡ false) identities
    → All (λ j. same_key j i ≡ false) identities × All (λ j. is_seen j seen ≡ false) identities
All-unseen i [] seen h = (tt, tt)
All-unseen i (j ∷ identities) seen h =
    let (apart, unseen) = neither (same_key j i) (is_seen j seen) h.0 in
    let (rest_apart, rest_unseen) = All-unseen i identities seen h.1 in
    ((apart, rest_apart), (unseen, rest_unseen))

check_identity-IsNew :
    (i : ReportedIdentity) (seen : List ReportedIdentity)
    → Done (λ u. (is_seen i seen ≡ false) × IsJustified i) (check_identity i seen)
unfolding check_identity
check_identity-IsNew i seen =
    >>-Done (λ u. (is_seen i seen ≡ false) × IsJustified i) _ _
      (refuse_if-Done (λ u. (is_seen i seen ≡ false) × IsJustified i)
        (is_seen i seen || not (is_counted i.classification))
        "Duplicate identity/invalid classification" _
        λ new.
          refuse_if-last (λ u. (is_seen i seen ≡ false) × IsJustified i) (bad_conflicts i)
            "Invalid conflict quarantine evidence"
            λ good. (
              (neither (is_seen i seen) (not (is_counted i.classification)) new).0,
              bad_conflicts-IsJustified i good,
            ))

pub check_identities-AreNew :
    (identities seen : List ReportedIdentity)
    → Done (AreNew identities seen) (check_identities identities seen)
unfolding check_identities
check_identities-AreNew [] seen = reached (tt, tt, tt)
check_identities-AreNew (i ∷ identities) seen =
    >>=-Done (AreNew (i ∷ identities) seen) (check_identity i seen) _ λ u checked.
      let new =
        Done-at (λ u. (is_seen i seen ≡ false) × IsJustified i) (check_identity i seen) checked
          (check_identity-IsNew i seen) in
      Done-map (AreNew identities (i ∷ seen)) (AreNew (i ∷ identities) seen)
        (check_identities identities (i ∷ seen))
        (λ v (unseen, distinct, justified).
          let (apart, later) = All-unseen i identities seen unseen in
          ((new.0, later), (apart, distinct), (new.1, justified)))
        (check_identities-AreNew identities (i ∷ seen))
