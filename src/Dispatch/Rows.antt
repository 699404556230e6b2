-- ===== src/Dispatch/Rows.antt =====
-- The table of dispatches as a function of organization, load and order, and what a batch does to it
-- (chief-of-staff/backend/app/connectors/torqueai_ingestion.py).
use polaris_lab.Base.{
  find_first-append, find_first-change, find_first-change_other, ℕ, String, Bool, true, false, ◌&&◌,
  Option, none, some, List, [], ◌∷◌, str_eq, str_eq_refl, eq_iff, ◌≡◌, refl, ap, ◌∙◌, inl, inr,
  Bool-cases, Option-cases, if◌then◌else◌, arith,
}
use polaris_lab.Python.Decimal.{Decimal}
use polaris_lab.Dispatch.Normalize.{NormalizedDispatch}
use polaris_lab.Dispatch.Tables.{DispatchRow}
use polaris_lab.Dispatch.Persist.{
  is_row_of, RunCounts, count_effect, is_row_of, find_row, row_of_item, persisted_values, new_row,
  is_unchanged, observe, effect_of, put_item, put_items,
}
use polaris_lab.Dispatch.Lookup.{is_row_of-eq}

-- The row of an organization with a load and an order.
abbrev pub View : Type 0
View = String → String → String → Option DispatchRow

abbrev pub view : List DispatchRow → View
view rows organization_id load order = find_row organization_id load order rows

module _ (organization_id : String) (column : Decimal → Decimal) (observed_at : ℕ) where
  -- A record on top of what was there: a row keeps when it was first observed, and a record with the
  -- fingerprint of the row changes only when it was last observed.
  abbrev pub merged : NormalizedDispatch → Option DispatchRow → DispatchRow
  merged item none = record {
    organization_id = organization_id;
    values = persisted_values organization_id column observed_at item;
    first_observed_at = observed_at;
    last_observed_at = observed_at;
    last_changed_at = observed_at;
  }
  merged item (some row) =
      let same = str_eq row.values.source_fingerprint item.source_fingerprint in
      record {
        organization_id = row.organization_id;
        values =
            if same then row.values else persisted_values organization_id column observed_at item;
        first_observed_at = row.first_observed_at;
        last_observed_at = observed_at;
        last_changed_at = if same then row.last_changed_at else observed_at;
      }

  observe-eq-merged :
      (item : NormalizedDispatch) (row : DispatchRow)
      → observe organization_id column observed_at item row ≡ merged item (some row)
  observe-eq-merged item row =
      elim (Bool-cases (is_unchanged organization_id column observed_at item row)) [
        | inl e ↦ rw e refl
        | inr e ↦ rw e refl
      ]

  abbrev pub is_key : NormalizedDispatch → String → String → String → Bool
  is_key item organization load order =
      str_eq organization_id organization
      && str_eq item.provider_load_number load
      && str_eq item.provider_order_number order

  -- A record of the batch, put into a function.
  abbrev pub put_view : NormalizedDispatch → View → View
  put_view item v organization load order =
      if is_key item organization load order
      then some
          (merged item (v organization_id item.provider_load_number item.provider_order_number))
      else v organization load order

  abbrev pub replay_items : List NormalizedDispatch → View → View
  replay_items [] v = v
  replay_items (item ∷ items) v = replay_items items (put_view item v)

  pub is_key-eq :
      (item : NormalizedDispatch) (o l k : String)
      → is_key item o l k ≡ true
      → (organization_id ≡ o) × (item.provider_load_number ≡ l) × (item.provider_order_number ≡ k)
  is_key-eq item o l k h = ground (
    arith,
    eq_iff organization_id o,
    eq_iff item.provider_load_number l,
    eq_iff item.provider_order_number k,
  )

  -- The key of a row that is observed is that of the record.
  is_row_of-observe :
      (item : NormalizedDispatch) (o l k : String) (row : DispatchRow)
      → is_row_of organization_id item.provider_load_number item.provider_order_number row ≡ true
      → (is_row_of o l k row ≡ is_key item o l k)
        × (is_row_of o l k (observe organization_id column observed_at item row)
            ≡ is_key item o l k)
  is_row_of-observe item o l k row h =
      let (a, b, c) =
        is_row_of-eq organization_id item.provider_load_number item.provider_order_number row h in
      elim (Bool-cases (is_unchanged organization_id column observed_at item row)) [
        | inl e ↦ rw (e, a, b, c) (refl, refl)
        | inr e ↦ rw (e, a, b, c) (refl, refl)
      ]

  pub is_key_self :
      (item : NormalizedDispatch)
      → is_key item organization_id item.provider_load_number item.provider_order_number ≡ true
  is_key_self item =
      rw
        (
          str_eq_refl organization_id,
          str_eq_refl item.provider_load_number,
          str_eq_refl item.provider_order_number,
        )
        refl

  put_item_hit :
      (item : NormalizedDispatch) (rows : List DispatchRow)
      → row_of_item organization_id item (put_item organization_id column observed_at item rows)
        ≡ some (merged item (row_of_item organization_id item rows))
  put_item_hit item rows = elim (Option-cases (row_of_item organization_id item rows)) [
    | inl e ↦
        let added =
          find_first-append
            (is_row_of organization_id item.provider_load_number item.provider_order_number) rows
            (new_row organization_id column observed_at item) in
        let absent : row_of_item organization_id item rows ≡ none = e in
        rw absent (added ∙ rw (absent, is_key_self item) refl)
    | inr (row, e) ↦ rw e (
        find_first-change
          (is_row_of organization_id item.provider_load_number item.provider_order_number)
          (observe organization_id column observed_at item)
          (λ r h.
            (is_row_of-observe item organization_id item.provider_load_number
              item.provider_order_number r h).1
            ∙ is_key_self item)
          rows row e
        ∙ ap some (observe-eq-merged item row))
  ]

  put_item_miss :
      (item : NormalizedDispatch) (rows : List DispatchRow) (o l k : String)
      → is_key item o l k ≡ false
      → view (put_item organization_id column observed_at item rows) o l k ≡ view rows o l k
  put_item_miss item rows o l k other =
      elim (Option-cases (row_of_item organization_id item rows)) [
        | inl e ↦
            let added =
              find_first-append (is_row_of o l k) rows
                (new_row organization_id column observed_at item) in
            rw e (
              added ∙ elim (Option-cases (find_row o l k rows)) [
                | inl f ↦ rw (f, other) refl
                | inr (r, f) ↦ rw f refl
              ])
        | inr (row, e) ↦ rw e (
            find_first-change_other
              (is_row_of organization_id item.provider_load_number item.provider_order_number)
              (is_row_of o l k) (observe organization_id column observed_at item)
              (λ r h. let (a, b) = is_row_of-observe item o l k r h in (a ∙ other, b ∙ other)) rows)
      ]

  pub view-put_item :
      (item : NormalizedDispatch) (rows : List DispatchRow) (o l k : String)
      → view (put_item organization_id column observed_at item rows) o l k
        ≡ put_view item (view rows) o l k
  view-put_item item rows o l k = elim (Bool-cases (is_key item o l k)) [
    | inl hit ↦
        let (a, b, c) = is_key-eq item o l k hit in rw (hit, ← a, ← b, ← c) (put_item_hit item rows)
    | inr miss ↦ rw miss (put_item_miss item rows o l k miss)
  ]

  pub view-put_item_all :
      (item : NormalizedDispatch) (rows : List DispatchRow)
      → view (put_item organization_id column observed_at item rows) ≡ put_view item (view rows)
  view-put_item_all item rows = λ i o l k. view-put_item item rows o l k i

  -- The table after a batch reads as the function before it, with the records put in one by one.
  pub view-put_items :
      (items : List NormalizedDispatch) (rows : List DispatchRow) (c : RunCounts)
      → view (put_items organization_id column observed_at items rows c).0
        ≡ replay_items items (view rows)
  unfolding put_items
  view-put_items [] rows c = refl
  view-put_items (item ∷ items) rows c =
      view-put_items items (put_item organization_id column observed_at item rows) (
        count_effect
          (effect_of organization_id column observed_at item
            (row_of_item organization_id item rows))
          c)
      ∙ ap (replay_items items) (view-put_item_all item rows)
