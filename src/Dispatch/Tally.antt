-- ===== src/Dispatch/Tally.antt =====
-- How many rows a batch inserts, updates and leaves
-- (chief-of-staff/backend/app/connectors/torqueai_ingestion.py).
use polaris_lab.Base.{
  length-change_first, ℕ, ◌+◌, String, List, [], ◌∷◌, length, length-append, ◌≡◌, refl, ◌∙◌, inl,
  inr, Bool-cases, Option-cases, arith,
}
use polaris_lab.Python.Decimal.{Decimal}
use polaris_lab.Dispatch.Normalize.{NormalizedDispatch}
use polaris_lab.Dispatch.Tables.{DispatchRow}
use polaris_lab.Dispatch.Persist.{
  is_row_of, RunCounts, count_effect, row_of_item, new_row, is_unchanged, observe, effect_of,
  put_item, put_items,
}

abbrev effects : RunCounts → ℕ
effects c = c.rows_inserted + c.rows_updated + c.rows_unchanged

-- The counts `c'` are `c` with `items` more records, on a table that grew from `before` to `after` rows.
pub record IsCounted (items before after : ℕ) (c c' : RunCounts) : Type 0 where
  pub all : effects c' ≡ effects c + items
  pub grown : after + c.rows_inserted ≡ before + c'.rows_inserted
  pub pages : c'.pages_fetched ≡ c.pages_fetched
  pub total : c'.provider_total_count ≡ c.provider_total_count
  pub validated : c'.rows_validated ≡ c.rows_validated

module _ (organization_id : String) (column : Decimal → Decimal) (observed_at : ℕ) where
  put_item-IsCounted :
      (item : NormalizedDispatch) (rows : List DispatchRow) (c : RunCounts)
      → IsCounted 1
          (length rows)
          (length (put_item organization_id column observed_at item rows))
          c
          (count_effect
            (effect_of organization_id column observed_at item
              (row_of_item organization_id item rows))
            c)
  put_item-IsCounted item rows c = elim (Option-cases (row_of_item organization_id item rows)) [
    | inl e ↦ rw e (record {
      all = omega arith;
      grown =
          omega (arith, length-append rows (new_row organization_id column observed_at item ∷ []));
      pages = refl;
      total = refl;
      validated = refl;
    })
    | inr (row, e) ↦
        let same_length =
          length-change_first
            (is_row_of organization_id item.provider_load_number item.provider_order_number)
            (observe organization_id column observed_at item) rows in
        elim (Bool-cases (is_unchanged organization_id column observed_at item row)) [
          | inl k ↦
              rw (e, k)
                (record {
                  all = omega arith;
                  grown = omega (arith, same_length);
                  pages = refl;
                  total = refl;
                  validated = refl;
                })
          | inr k ↦
              rw (e, k)
                (record {
                  all = omega arith;
                  grown = omega (arith, same_length);
                  pages = refl;
                  total = refl;
                  validated = refl;
                })
        ]
  ]

  pub put_items-IsCounted :
      (items : List NormalizedDispatch) (rows : List DispatchRow) (c : RunCounts)
      → IsCounted
          (length items)
          (length rows)
          (length (put_items organization_id column observed_at items rows c).0)
          c
          (put_items organization_id column observed_at items rows c).1
  unfolding put_items
  put_items-IsCounted [] rows c = record {
    all = omega arith;
    grown = refl;
    pages = refl;
    total = refl;
    validated = refl;
  }
  put_items-IsCounted (item ∷ items) rows c =
      let one = put_item-IsCounted item rows c in
      let rest = put_items-IsCounted items (put_item organization_id column observed_at item rows) (
        count_effect
          (effect_of organization_id column observed_at item
            (row_of_item organization_id item rows))
          c) in
      record {
        all = omega (arith, one.all, rest.all);
        grown = omega (arith, one.grown, rest.grown);
        pages = rest.pages ∙ one.pages;
        total = rest.total ∙ one.total;
        validated = rest.validated ∙ one.validated;
      }
