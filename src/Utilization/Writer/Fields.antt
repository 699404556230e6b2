-- ===== src/Utilization/Writer/Fields.antt =====
-- What the reconciled fields of a row are worth after
-- chief-of-staff/backend/app/motive/vehicle_utilization_writer.py has set them.
use mathlib.Core.Path.{subst}
use polaris_lab.Base.{
  true, false, Bool-cases, Option, List, [], ◌∷◌, ◌≡◌, refl, sym, ◌∙◌, ap, ◌⊎◌, inl, inr,
}
use polaris_lab.Outcome.{ok, ◌>>=◌, >>=-eq-ok, ok-inj}
use polaris_lab.Python.Decimal.{Decimal}
use polaris_lab.Utilization.Rollup.{Rollup, Metrics}
use polaris_lab.Utilization.Writer.Store.{
  UtilizationRecord, Field, utilization_percent, idle_time, driving_time, idle_fuel, driving_fuel,
  get, put, Database, stored_value,
}
use polaris_lab.Utilization.Writer.Plan.{
  compute_mutable_field_changes, decimal_differs, Changes, candidate_fields, field_changes,
  mutable_on_provider_reconciliation,
}
use polaris_lab.Utilization.Writer.Replay.{AreSame}

get-put :
    (f g : Field) → (f ≡ g) ⊎ ((v : Option Decimal) (m : Metrics) → get f (put g v m) ≡ get f m)
get-put utilization_percent utilization_percent = inl refl
get-put idle_time idle_time = inl refl
get-put driving_time driving_time = inl refl
get-put idle_fuel idle_fuel = inl refl
get-put driving_fuel driving_fuel = inl refl
get-put f g = inr (λ v m. refl)

get-put_same : (f : Field) (v : Option Decimal) (m : Metrics) → get f (put f v m) ≡ v
get-put_same utilization_percent v m = refl
get-put_same idle_time v m = refl
get-put_same driving_time v m = refl
get-put_same idle_fuel v m = refl
get-put_same driving_fuel v m = refl

abbrev Pending : Field → List Field → Type 0
Pending f [] = ⊥
Pending f (g ∷ fields) = (f ≡ g) ⊎ Pending f fields

pending : (f : Field) → Pending f candidate_fields
pending utilization_percent = inl refl
pending idle_time = inr (inl refl)
pending driving_time = inr (inr (inl refl))
pending idle_fuel = inr (inr (inr (inl refl)))
pending driving_fuel = inr (inr (inr (inr (inl refl))))

mutable : (f : Field) → mutable_on_provider_reconciliation f ≡ true
mutable utilization_percent = refl
mutable idle_time = refl
mutable driving_time = refl
mutable idle_fuel = refl
mutable driving_fuel = refl

module _ (db : Database) where
  -- The metrics after the changes were set on them one by one.
  abbrev pub applied : Changes → Metrics → Metrics
  applied [] m = m
  applied ((f, v) ∷ changes) m = applied changes (put f (stored_value db v) m)

  -- The columns keep the values of these metrics.
  abbrev pub AreExact : Metrics → Type 0
  AreExact m = (f : Field) → decimal_differs (stored_value db (get f m)) (get f m) ≡ false

  module _ (a b : Metrics) (exact : AreExact b) where
    abbrev IsRight : Metrics → Field → Type 0
    IsRight m f = decimal_differs (get f m) (get f b) ≡ false

    abbrev Invariant : List Field → Metrics → Type 0
    Invariant fields m =
        (f : Field)
        → (Pending f fields × (decimal_differs (get f a) (get f b) ≡ true)) ⊎ IsRight m f

    pass :
        (g : Field) (fields : List Field) (m : Metrics)
        → decimal_differs (get g a) (get g b) ≡ false
        → Invariant (g ∷ fields) m
        → Invariant fields m
    pass g fields m agrees inv f = elim (inv f) [
      | inl (inl here, differs) ↦
          let clash : true ≡ false =
            sym differs ∙ ap (λ x. decimal_differs (get x a) (get x b)) here ∙ agrees in
          cc
      | inl (inr later, differs) ↦ inl (later, differs)
      | inr right ↦ inr right
    ]

    put-IsRight : (f : Field) (m : Metrics) → IsRight (put f (stored_value db (get f b)) m) f
    put-IsRight f m =
        ap (λ v. decimal_differs v (get f b)) (get-put_same f (stored_value db (get f b)) m)
        ∙ exact f

    put-Invariant :
        (g : Field) (fields : List Field) (m : Metrics)
        → Invariant (g ∷ fields) m
        → Invariant fields (put g (stored_value db (get g b)) m)
    put-Invariant g fields m inv f = elim (get-put f g) [
      | inl same ↦
          inr (subst (λ x. IsRight (put x (stored_value db (get x b)) m) f) same (put-IsRight f m))
      | inr other ↦ elim (inv f) [
        | inl (inl here, differs) ↦
            inr
              (subst (λ x. IsRight (put x (stored_value db (get x b)) m) f) here (put-IsRight f m))
        | inl (inr later, differs) ↦ inl (later, differs)
        | inr right ↦
            inr
              (ap (λ v. decimal_differs v (get f b)) (other (stored_value db (get g b)) m) ∙ right)
      ]
    ]

    applied-IsRight :
        (fields : List Field) (changes : Changes) (m : Metrics)
        → field_changes fields a b ≡ ok changes
        → Invariant fields m
        → (f : Field) → IsRight (applied changes m) f
    unfolding field_changes
    applied-IsRight [] changes m h inv f = elim (inv f) [
      | inl (none_left, differs) ↦ elim none_left [ ]
      | inr right ↦ subst (λ cs. IsRight (applied cs m) f) (ok-inj h) right
    ]
    applied-IsRight (g ∷ fields) changes m h inv f =
        elim (Bool-cases (decimal_differs (get g a) (get g b))) [
          | inl differs ↦
              let found : (field_changes fields a b >>= λ cs. ok ((g, get g b) ∷ cs)) ≡ ok changes =
                rw (differs, mutable g) at h in
              let got = >>=-eq-ok (field_changes fields a b) _ found in
              subst (λ cs. IsRight (applied cs m) f) (ok-inj got.2)
                (applied-IsRight fields got.0 (put g (stored_value db (get g b)) m) got.1
                  (put-Invariant g fields m inv) f)
          | inr agrees ↦
              let rest : field_changes fields a b ≡ ok changes = rw agrees at h in
              applied-IsRight fields changes m rest (pass g fields m agrees inv) f
        ]

    start-Invariant :
        (f : Field)
        → (Pending f candidate_fields × (decimal_differs (get f a) (get f b) ≡ true)) ⊎ IsRight a f
    start-Invariant f = elim (Bool-cases (decimal_differs (get f a) (get f b))) [
      | inl differs ↦ inl (pending f, differs)
      | inr agrees ↦ inr agrees
    ]

    -- The changes that were computed make the metrics those of the rollup.
    pub applied-AreSame :
        (changes : Changes)
        → field_changes candidate_fields a b ≡ ok changes
        → AreSame (applied changes a) b
    applied-AreSame changes h = applied-IsRight candidate_fields changes a h start-Invariant

field_changes-returns :
    (fields : List Field) (a b : Metrics)
    → (changes : Changes) × (field_changes fields a b ≡ ok changes)
unfolding field_changes
field_changes-returns [] a b = ([], refl)
field_changes-returns (g ∷ fields) a b =
    let rest = field_changes-returns fields a b in
    elim (Bool-cases (decimal_differs (get g a) (get g b))) [
      | inl differs ↦ ((g, get g b) ∷ rest.0, rw (differs, mutable g, rest.1) refl)
      | inr agrees ↦ (rest.0, rw agrees rest.1)
    ]

field_changes-differs :
    (fields : List Field) (a b : Metrics) (f : Field)
    → Pending f fields
    → decimal_differs (get f a) (get f b) ≡ true
    → (c : Field × Option Decimal) × (changes : Changes) × (field_changes fields a b
        ≡ ok (c ∷ changes))
unfolding field_changes
field_changes-differs [] a b f none_left d = elim none_left [ ]
field_changes-differs (g ∷ fields) a b f here d =
    let rest = field_changes-returns fields a b in
    elim (Bool-cases (decimal_differs (get g a) (get g b))) [
      | inl differs ↦ ((g, get g b), rest.0, rw (differs, mutable g, rest.1) refl)
      | inr agrees ↦ elim here [
        | inl same ↦
            let clash : true ≡ false =
              sym d ∙ ap (λ x. decimal_differs (get x a) (get x b)) same ∙ agrees in
            cc
        | inr later ↦
            let more = field_changes-differs fields a b f later d in
            (more.0, more.1, rw agrees more.2)
      ]
    ]

-- A row that differs from a rollup in any of the five metrics is given at least one change: the
-- computation of the changes returns, and not with an empty list.
pub changes-differs :
    (existing : UtilizationRecord) (r : Rollup) (f : Field)
    → decimal_differs (get f existing.metrics) (get f r.metrics) ≡ true
    → (c : Field × Option Decimal) × (changes : Changes) × (compute_mutable_field_changes existing r
        ≡ ok (c ∷ changes))
unfolding compute_mutable_field_changes
changes-differs existing r f d =
    field_changes-differs candidate_fields existing.metrics r.metrics f (pending f) d
