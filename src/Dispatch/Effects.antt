-- ===== src/Dispatch/Effects.antt =====
-- Which rows a batch inserts, updates and leaves, told from what the table says before each record is put
-- (chief-of-staff/backend/app/connectors/torqueai_ingestion.py).
use polaris_lab.Base.{
  ℕ, ◌+◌, String, Option, none, some, List, [], ◌∷◌, str_eq, if◌then◌else◌, ◌≡◌, ap, inl, inr,
  Bool-cases, arith,
}
use polaris_lab.Python.Decimal.{Decimal}
use polaris_lab.Dispatch.Normalize.{NormalizedDispatch}
use polaris_lab.Dispatch.Tables.{DispatchRow}
use polaris_lab.Dispatch.Persist.{
  RunCounts, count_effect, row_of_item, is_unchanged, effect_of, put_item, put_items,
}
use polaris_lab.Dispatch.Rows.{View, view, put_view, view-put_item}

-- One for a record that the table has no row for.
abbrev pub is_new : NormalizedDispatch → Option DispatchRow → ℕ
is_new item none = 1
is_new item (some row) = 0

-- One for a record whose row has another fingerprint.
abbrev pub is_changed : NormalizedDispatch → Option DispatchRow → ℕ
is_changed item none = 0
is_changed item (some row) =
    if str_eq row.values.source_fingerprint item.source_fingerprint then 0 else 1

-- One for a record whose row has its fingerprint.
abbrev pub is_same : NormalizedDispatch → Option DispatchRow → ℕ
is_same item none = 0
is_same item (some row) =
    if str_eq row.values.source_fingerprint item.source_fingerprint then 1 else 0

module _ (organization_id : String) (column : Decimal → Decimal) (observed_at : ℕ) where
  -- The sum over a batch of what each record is worth, by the row that it finds when its turn comes.
  abbrev pub sum_over :
      (NormalizedDispatch → Option DispatchRow → ℕ) → List NormalizedDispatch → View → ℕ
  sum_over worth [] v = 0
  sum_over worth (item ∷ items) v =
      worth item (v organization_id item.provider_load_number item.provider_order_number)
      + sum_over worth items (put_view organization_id column observed_at item v)

  -- The counts `c'` are `c` and those of a batch.
  pub record IsTold (items : List NormalizedDispatch) (v : View) (c c' : RunCounts) : Type 0 where
    pub inserted : c'.rows_inserted ≡ c.rows_inserted + sum_over is_new items v
    pub updated : c'.rows_updated ≡ c.rows_updated + sum_over is_changed items v
    pub unchanged : c'.rows_unchanged ≡ c.rows_unchanged + sum_over is_same items v

  count_effect-adds :
      (item : NormalizedDispatch) (found : Option DispatchRow) (c : RunCounts)
      → let c' = count_effect (effect_of organization_id column observed_at item found) c in
        (c'.rows_inserted ≡ c.rows_inserted + is_new item found)
        × (c'.rows_updated ≡ c.rows_updated + is_changed item found)
        × (c'.rows_unchanged ≡ c.rows_unchanged + is_same item found)
  count_effect-adds item none c = (omega arith, omega arith, omega arith)
  count_effect-adds item (some row) c =
      elim (Bool-cases (is_unchanged organization_id column observed_at item row)) [
        | inl e ↦ rw e (omega arith, omega arith, omega arith)
        | inr e ↦ rw e (omega arith, omega arith, omega arith)
      ]

  pub put_items-IsTold :
      (items : List NormalizedDispatch) (rows : List DispatchRow) (c : RunCounts)
      → IsTold items (view rows) c (put_items organization_id column observed_at items rows c).1
  unfolding put_items
  put_items-IsTold [] rows c = record {
    inserted = omega arith;
    updated = omega arith;
    unchanged = omega arith;
  }
  put_items-IsTold (item ∷ items) rows c =
      let found = row_of_item organization_id item rows in
      let one = count_effect-adds item found c in
      let after = put_item organization_id column observed_at item rows in
      let rest =
        put_items-IsTold items after
          (count_effect (effect_of organization_id column observed_at item found) c) in
      let seen : view after ≡ put_view organization_id column observed_at item (view rows) =
        λ i o l k. view-put_item organization_id column observed_at item rows o l k i in
      record {
        inserted = omega (arith, rest.inserted, one.0, ap (sum_over is_new items) seen);
        updated = omega (arith, rest.updated, one.1, ap (sum_over is_changed items) seen);
        unchanged = omega (arith, rest.unchanged, one.2, ap (sum_over is_same items) seen);
      }
