-- ===== src/Utilization/Writer/Keeps.antt =====
-- What a write of chief-of-staff/backend/app/motive/vehicle_utilization_writer.py leaves of the rows
-- that were there: nothing is removed or moved, only metrics change, and only the tenant's own.
use polaris_lab.Base.{
  ◌⊎◌, inl, inr, ℕ, String, true, false, Option, List, [], ◌∷◌, ◌++◌, ◌==◌, All, All-append, ◌≡◌,
  refl, sym, ◌∙◌, ap, inl, inr, if◌then◌else◌, Bool-cases,
}
use polaris_lab.Python.Decimal.{Decimal}
use polaris_lab.Utilization.Rollup.{Metrics}
use polaris_lab.Utilization.Writer.Store.{
  Row, Database, Field, UtilizationRecord, new_row, add_row, set_field, set_in_rows,
}
use polaris_lab.Utilization.Writer.Plan.{Changes}
use polaris_lab.Utilization.Writer.Stage.{add_rows, set_fields, reconcile_rows}

-- No primary key stands twice.
abbrev pub AreKeyed : List Row → Type 0
AreKeyed [] = Unit
AreKeyed (row ∷ rows) = All (λ other. (other.id == row.id) ≡ false) rows × AreKeyed rows

abbrev pub with_metrics : Row → Metrics → Row
with_metrics row m = record row { value = record row.value { metrics = m } }

module _ (organization_id : String) where
  abbrev pub IsOwn : Row → Type 0
  IsOwn row = row.value.organization_id ≡ organization_id

  -- A row after the write: the same columns but the metrics, and those too unless it is the tenant's.
  abbrev IsKept : Row → Row → Type 0
  IsKept row after = (after ≡ with_metrics row after.value.metrics) × (IsOwn row ⊎ (after ≡ row))

  -- The old rows are kept in their places, and the new ones behind them are the tenant's.
  abbrev pub AreKept : List Row → List Row → Type 0
  AreKept [] after = All IsOwn after
  AreKept (row ∷ rows) [] = ⊥
  AreKept (row ∷ rows) (row' ∷ after) = IsKept row row' × AreKept rows after

  -- The primary key is of none but the tenant's rows.
  abbrev pub IsOwned : ℕ → List Row → Type 0
  IsOwned id rows = All (λ row. (row.id == id) ≡ true → IsOwn row) rows

  pub AreKept-refl : (rows : List Row) → AreKept rows rows
  AreKept-refl [] = tt
  AreKept-refl (row ∷ rows) = ((refl, inr refl), AreKept-refl rows)

  AreKept-append :
      (old rows new : List Row) → AreKept old rows → All IsOwn new → AreKept old (rows ++ new)
  AreKept-append [] rows new k n = All-append IsOwn rows new k n
  AreKept-append (row ∷ old) (row' ∷ rows) new k n = (k.0, AreKept-append old rows new k.1 n)
  AreKept-append (row ∷ old) [] new k n = elim k [ ]

  IsOwn-before : (row now : Row) → IsOwn now → now ≡ with_metrics row now.value.metrics → IsOwn row
  IsOwn-before row now own k = sym (ap (λ (x : Row). x.value.organization_id) k) ∙ own

  module _ (db : Database) where
    set_field-IsKept :
        (row now : Row) (id : ℕ) (f : Field) (v : Option Decimal)
        → ((now.id == id) ≡ true → IsOwn now)
        → IsKept row now
        → IsKept row (if now.id == id then set_field db f v now else now)
    unfolding set_field
    set_field-IsKept row now id f v own k = elim (Bool-cases (now.id == id)) [
      | inl h ↦ rw h (
        ap (λ x. with_metrics x (set_field db f v now).value.metrics) k.0,
        inl (IsOwn-before row now (own h) k.0),
      )
      | inr h ↦ rw h k
    ]

    set_field-IsOwn :
        (now : Row) (id : ℕ) (f : Field) (v : Option Decimal)
        → IsOwn now
        → IsOwn (if now.id == id then set_field db f v now else now)
    unfolding set_field
    set_field-IsOwn now id f v own = elim (Bool-cases (now.id == id)) [
      | inl h ↦ rw h own
      | inr h ↦ rw h own
    ]

    set_in_rows-AreKept :
        (old rows : List Row) (id : ℕ) (f : Field) (v : Option Decimal)
        → IsOwned id rows
        → AreKept old rows
        → AreKept old (set_in_rows db id f v rows)
    unfolding set_in_rows
    set_in_rows-AreKept [] [] id f v own k = tt
    set_in_rows-AreKept [] (row ∷ rows) id f v own k =
        (set_field-IsOwn row id f v k.0, set_in_rows-AreKept [] rows id f v own.1 k.1)
    set_in_rows-AreKept (row ∷ old) [] id f v own k = k
    set_in_rows-AreKept (row ∷ old) (now ∷ rows) id f v own k =
        (set_field-IsKept row now id f v own.0 k.0, set_in_rows-AreKept old rows id f v own.1 k.1)

    set_in_rows-IsOwned :
        (rows : List Row) (id other : ℕ) (f : Field) (v : Option Decimal)
        → IsOwned other rows
        → IsOwned other (set_in_rows db id f v rows)
    unfolding set_in_rows set_field
    set_in_rows-IsOwned [] id other f v own = tt
    set_in_rows-IsOwned (row ∷ rows) id other f v own = (
      (elim (Bool-cases (row.id == id)) [ inl h ↦ rw h own.0 | inr h ↦ rw h own.0 ]),
      set_in_rows-IsOwned rows id other f v own.1,
    )

    set_fields-AreKept :
        (changes : Changes) (id : ℕ) (old rows : List Row)
        → IsOwned id rows
        → AreKept old rows
        → AreKept old (set_fields db id changes rows)
    unfolding set_fields
    set_fields-AreKept [] id old rows own k = k
    set_fields-AreKept ((f, v) ∷ changes) id old rows own k =
        set_fields-AreKept changes id old (set_in_rows db id f v rows)
          (set_in_rows-IsOwned rows id id f v own) (set_in_rows-AreKept old rows id f v own k)

    set_fields-IsOwned :
        (changes : Changes) (id other : ℕ) (rows : List Row)
        → IsOwned other rows
        → IsOwned other (set_fields db id changes rows)
    unfolding set_fields
    set_fields-IsOwned [] id other rows own = own
    set_fields-IsOwned ((f, v) ∷ changes) id other rows own =
        set_fields-IsOwned changes id other (set_in_rows db id f v rows)
          (set_in_rows-IsOwned rows id other f v own)

    abbrev pub AllOwned : List (Row × Changes) → List Row → Type 0
    AllOwned todo rows = All (λ c. IsOwned c.0.id rows) todo

    AllOwned-set_fields :
        (todo : List (Row × Changes)) (id : ℕ) (changes : Changes) (rows : List Row)
        → AllOwned todo rows
        → AllOwned todo (set_fields db id changes rows)
    AllOwned-set_fields [] id changes rows h = tt
    AllOwned-set_fields ((row, c) ∷ todo) id changes rows h = (
      set_fields-IsOwned changes id row.id rows h.0,
      AllOwned-set_fields todo id changes rows h.1,
    )

    pub reconcile_rows-AreKept :
        (todo : List (Row × Changes)) (old rows : List Row)
        → AllOwned todo rows
        → AreKept old rows
        → AreKept old (reconcile_rows db todo rows)
    unfolding reconcile_rows
    reconcile_rows-AreKept [] old rows own k = k
    reconcile_rows-AreKept ((row, changes) ∷ todo) old rows own k =
        reconcile_rows-AreKept todo old (set_fields db row.id changes rows)
          (AllOwned-set_fields todo row.id changes rows own.1)
          (set_fields-AreKept changes row.id old rows own.0 k)

    abbrev pub IsNew : UtilizationRecord → Type 0
    IsNew r = r.organization_id ≡ organization_id

    pub add_rows-AreKept :
        (rs : List UtilizationRecord) (old rows : List Row)
        → All IsNew rs
        → AreKept old rows
        → AreKept old (add_rows db rs rows)
    unfolding add_rows add_row
    add_rows-AreKept [] old rows n k = k
    add_rows-AreKept (r ∷ rs) old rows n k =
        add_rows-AreKept rs old (add_row db r rows) n.1
          (AreKept-append old rows (new_row db r rows ∷ []) k (n.0, tt))

    add_rows-IsOwned :
        (rs : List UtilizationRecord) (id : ℕ) (rows : List Row)
        → All IsNew rs
        → IsOwned id rows
        → IsOwned id (add_rows db rs rows)
    unfolding add_rows add_row
    add_rows-IsOwned [] id rows n own = own
    add_rows-IsOwned (r ∷ rs) id rows n own = add_rows-IsOwned rs id (add_row db r rows) n.1 (
        All-append (λ row. (row.id == id) ≡ true → IsOwn row) rows (new_row db r rows ∷ []) own
          ((λ h. n.0), tt))

    pub AllOwned-add_rows :
        (todo : List (Row × Changes)) (rs : List UtilizationRecord) (rows : List Row)
        → All IsNew rs
        → AllOwned todo rows
        → AllOwned todo (add_rows db rs rows)
    AllOwned-add_rows [] rs rows n h = tt
    AllOwned-add_rows ((row, c) ∷ todo) rs rows n h =
        (add_rows-IsOwned rs row.id rows n h.0, AllOwned-add_rows todo rs rows n h.1)
