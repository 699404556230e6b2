-- ===== src/Utilization/Writer/Lookup.antt =====
-- What the lookup of a row by its durable identity finds after the changes of
-- chief-of-staff/backend/app/motive/vehicle_utilization_writer.py were set on a row.
use mathlib.Core.Option
use polaris_lab.Base.{
  ℕ, true, Bool-cases, Option-cases, ◌==◌, if◌then◌else◌, Option, none, some, List, [], ◌∷◌, ◌≡◌,
  refl, sym, ◌∙◌, ap, arith, inl, inr,
}
use polaris_lab.Outcome.{ok}
use polaris_lab.Python.Decimal.{Decimal}
use polaris_lab.Utilization.Rollup.{Metrics, Rollup}
use polaris_lab.Utilization.Writer.Store.{Row, Field, Database, set_field, set_in_rows}
use polaris_lab.Utilization.Writer.Plan.{
  Key, matches, existing_row, Changes, compute_mutable_field_changes,
}
use polaris_lab.Utilization.Writer.Stage.{set_fields}
use polaris_lab.Utilization.Writer.Keeps.{with_metrics}
use polaris_lab.Utilization.Writer.Replay.{AreSame}
use polaris_lab.Utilization.Writer.Fields.{applied, AreExact, applied-AreSame}

self : (n : ℕ) → (n == n) ≡ true
self n = ground arith

module _ (db : Database) where
  abbrev set_at : ℕ → Field → Option Decimal → Row → Row
  set_at id f v row = if row.id == id then set_field db f v row else row

  matches-set_at :
      (k : Key) (id : ℕ) (f : Field) (v : Option Decimal) (row : Row)
      → matches k (set_at id f v row) ≡ matches k row
  unfolding set_field
  matches-set_at k id f v row = elim (Bool-cases (row.id == id)) [
    | inl h ↦ rw h refl
    | inr h ↦ rw h refl
  ]

  found_or : Option Row → Key → Row → Option Row
  found_or (some found) k row = some found
  found_or none k row = if matches k row then some row else none

  existing_row-eq :
      (k : Key) (row : Row) (rows : List Row)
      → existing_row k (row ∷ rows) ≡ found_or (existing_row k rows) k row
  unfolding existing_row found_or
  existing_row-eq k row rows = elim (Option-cases (existing_row k rows)) [
    | inl e ↦ rw e refl
    | inr (found, e) ↦ rw e refl
  ]

  found_or-set_at :
      (o : Option Row) (k : Key) (id : ℕ) (f : Field) (v : Option Decimal) (row : Row)
      → found_or (Option.map (set_at id f v) o) k (set_at id f v row)
        ≡ Option.map (set_at id f v) (found_or o k row)
  unfolding found_or
  found_or-set_at (some found) k id f v row = refl
  found_or-set_at none k id f v row =
      rw (matches-set_at k id f v row)
        (elim (Bool-cases (matches k row)) [ inl h ↦ rw h refl | inr h ↦ rw h refl ])

  existing_row-set_in_rows :
      (k : Key) (id : ℕ) (f : Field) (v : Option Decimal) (rows : List Row)
      → existing_row k (set_in_rows db id f v rows)
        ≡ Option.map (set_at id f v) (existing_row k rows)
  unfolding existing_row set_in_rows
  existing_row-set_in_rows k id f v [] = refl
  existing_row-set_in_rows k id f v (row ∷ rows) =
      existing_row-eq k (set_at id f v row) (set_in_rows db id f v rows)
      ∙ ap (λ o. found_or o k (set_at id f v row)) (existing_row-set_in_rows k id f v rows)
      ∙ found_or-set_at (existing_row k rows) k id f v row
      ∙ ap (Option.map (set_at id f v)) (sym (existing_row-eq k row rows))

  set_at-here :
      (f : Field) (v : Option Decimal) (row : Row) → set_at row.id f v row ≡ set_field db f v row
  set_at-here f v row = rw (self row.id) refl

  -- The lookup finds the row with the new metrics.
  set_fields-found :
      (k : Key) (changes : Changes) (row : Row) (rows : List Row)
      → existing_row k rows ≡ some row
      → existing_row k (set_fields db row.id changes rows)
        ≡ some (with_metrics row (applied db changes row.value.metrics))
  unfolding set_fields set_field
  set_fields-found k [] row rows h = h
  set_fields-found k ((f, v) ∷ changes) row rows h =
      set_fields-found k changes (set_field db f v row) (set_in_rows db row.id f v rows) (
        existing_row-set_in_rows k row.id f v rows
        ∙ ap (Option.map (set_at row.id f v)) h
        ∙ ap some (set_at-here f v row))

-- When the columns keep the rollup's metrics, setting the changes that were computed for the row at a
-- key makes the lookup at that key find the same row, with the rollup's metrics and every other column
-- as before.
pub set_fields-reconciles :
    (db : Database) (k : Key) (r : Rollup) (row : Row) (changes : Changes) (rows : List Row)
    → AreExact db r.metrics
    → existing_row k rows ≡ some row
    → compute_mutable_field_changes row.value r ≡ ok changes
    → (m : Metrics) × (existing_row k (set_fields db row.id changes rows)
        ≡ some (with_metrics row m))
      × AreSame m r.metrics
unfolding compute_mutable_field_changes
set_fields-reconciles db k r row changes rows exact here computed = (
  applied db changes row.value.metrics,
  set_fields-found db k changes row rows here,
  applied-AreSame db row.value.metrics r.metrics exact changes computed,
)
