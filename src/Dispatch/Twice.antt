-- ===== src/Dispatch/Twice.antt =====
-- A batch that is put into the table of dispatches a second time,
-- chief-of-staff/backend/app/connectors/torqueai_ingestion.py.
use mathlib.Core.Path.{subst}
use polaris_lab.Base.{
  sym, neither, ℕ, suc, ◌+◌, String, true, false, Option, none, some, List, [], ◌∷◌, length, str_eq,
  str_eq_refl, str_eq_sym, All, ◌≡◌, refl, ap, ◌∙◌, inl, inr, Bool-cases, arith,
}
use polaris_lab.Python.Decimal.{Decimal, Reader}
use polaris_lab.Dispatch.Call.{Returns-at, returned}
use polaris_lab.Dispatch.Connector.{DispatchPage}
use polaris_lab.Dispatch.Normalize.{
  NormalizedDispatch, same_identity, identity_seen, normalize_pages,
}
use polaris_lab.Dispatch.Tables.{DispatchRow}
use polaris_lab.Dispatch.Persist.{
  RunCounts, keeps, count_effect, row_of_item, effect_of, put_item, put_items,
}
use polaris_lab.Dispatch.Rows.{
  View, view, merged, is_key, is_key_self, is_key-eq, put_view, replay_items, view-put_item_all,
  view-put_items,
}
use polaris_lab.Dispatch.Fields.{same_identity_sym}
use polaris_lab.Dispatch.Distinct.{AreDistinct, AreNormal, normalize_pages-AreNormal}

-- A row without the time when it was last observed.
abbrev pub still : Option DispatchRow → Option DispatchRow
still none = none
still (some row) = some (record row { last_observed_at = 0 })

-- The result of a batch of `n` records: all are counted as unchanged, and every row is as it was, but
-- for when it was last observed.
abbrev pub IsUntouched : ℕ → List DispatchRow → RunCounts → List DispatchRow × RunCounts → Type 0
IsUntouched n rows c result =
    (result.1 ≡ record c { rows_unchanged = c.rows_unchanged + n })
    × ((o l k : String) → still (view result.0 o l k) ≡ still (view rows o l k))

with_unchanged :
    (c : RunCounts) (m n : ℕ)
    → m ≡ n
    → record c { rows_unchanged = m } ≡ record c { rows_unchanged = n }
with_unchanged c m n h = ap (λ u. record c { rows_unchanged = u }) h

module _ (organization_id : String) where
  -- There is a row for the record, with its fingerprint.
  abbrev pub IsHeld : View → NormalizedDispatch → Type 0
  IsHeld v item =
      (row : DispatchRow) × (v organization_id item.provider_load_number item.provider_order_number
        ≡ some row)
      × (str_eq row.values.source_fingerprint item.source_fingerprint ≡ true)

  module _ (column : Decimal → Decimal) (observed_at : ℕ) where
    merged_fingerprint :
        (item : NormalizedDispatch) (o : Option DispatchRow)
        → str_eq
            (merged organization_id column observed_at item o).values.source_fingerprint
            item.source_fingerprint
          ≡ true
    merged_fingerprint item none = str_eq_refl item.source_fingerprint
    merged_fingerprint item (some row) =
        elim (Bool-cases (str_eq row.values.source_fingerprint item.source_fingerprint)) [
          | inl e ↦ rw e e
          | inr e ↦ rw e (str_eq_refl item.source_fingerprint)
        ]

    put_view-IsHeld :
        (item : NormalizedDispatch) (v : View)
        → IsHeld (put_view organization_id column observed_at item v) item
    put_view-IsHeld item v =
        let before = v organization_id item.provider_load_number item.provider_order_number in
        (
          merged organization_id column observed_at item before,
          rw (is_key_self organization_id column observed_at item) refl,
          merged_fingerprint item before,
        )

    apart_key :
        (item other : NormalizedDispatch)
        → same_identity item other ≡ false
        → is_key organization_id column observed_at other organization_id item.provider_load_number
            item.provider_order_number
          ≡ false
    apart_key item other h =
        rw
          (
            str_eq_refl organization_id,
            str_eq_sym other.provider_load_number item.provider_load_number,
            str_eq_sym other.provider_order_number item.provider_order_number,
          )
          h

    put_view-IsHeld_other :
        (item other : NormalizedDispatch) (v : View)
        → same_identity item other ≡ false
        → IsHeld v item
        → IsHeld (put_view organization_id column observed_at other v) item
    put_view-IsHeld_other item other v h (row, found, same) =
        (row, rw (apart_key item other h) found, same)

    put_view-AllHeld :
        (d : NormalizedDispatch) (items : List NormalizedDispatch) (v : View)
        → identity_seen d items ≡ false
        → All (IsHeld v) items
        → All (IsHeld (put_view organization_id column observed_at d v)) items
    put_view-AllHeld d [] v h held = tt
    put_view-AllHeld d (e ∷ items) v h held =
        let (apart, rest) = neither (same_identity d e) (identity_seen d items) h in
        (
          put_view-IsHeld_other e d v (same_identity_sym e d ∙ apart) held.0,
          put_view-AllHeld d items v rest held.1,
        )

    replay-IsHeld :
        (item : NormalizedDispatch) (items : List NormalizedDispatch) (v : View)
        → identity_seen item items ≡ false
        → IsHeld v item
        → IsHeld (replay_items organization_id column observed_at items v) item
    replay-IsHeld item [] v h held = held
    replay-IsHeld item (e ∷ items) v h held =
        let (apart, rest) = neither (same_identity item e) (identity_seen item items) h in
        replay-IsHeld item items (put_view organization_id column observed_at e v) rest
          (put_view-IsHeld_other item e v apart held)

    still-put_view :
        (item : NormalizedDispatch) (v : View)
        → IsHeld v item
        → (o l k : String)
        → still (put_view organization_id column observed_at item v o l k) ≡ still (v o l k)
    still-put_view item v (row, found, same) o l k =
        elim (Bool-cases (is_key organization_id column observed_at item o l k)) [
          | inl hit ↦
              let (a, b, c) = is_key-eq organization_id column observed_at item o l k hit in
              rw (hit, ← a, ← b, ← c) (rw (found, same) refl)
          | inr miss ↦ rw miss refl
        ]

    effect_of-held :
        (item : NormalizedDispatch) (rows : List DispatchRow)
        → IsHeld (view rows) item
        → effect_of organization_id column observed_at item (row_of_item organization_id item rows)
          ≡ keeps
    effect_of-held item rows (row, found, same) = rw (found, same) refl

    module _ (decimal : Reader) (plain : Decimal → String)
        (digest : List (String × Option String) → String) where
      replay-AllHeld :
          (items : List NormalizedDispatch) (v : View)
          → AreDistinct decimal plain digest items
          → All (IsHeld (replay_items organization_id column observed_at items v)) items
      replay-AllHeld [] v h = tt
      replay-AllHeld (d ∷ items) v (new, rest) = (
        replay-IsHeld d items (put_view organization_id column observed_at d v) new
            (put_view-IsHeld d v),
        replay-AllHeld items (put_view organization_id column observed_at d v) rest,
      )

      put_items-IsUntouched :
          (items : List NormalizedDispatch) (rows : List DispatchRow) (c : RunCounts)
          → AreDistinct decimal plain digest items
          → All (IsHeld (view rows)) items
          → IsUntouched
              (length items)
              rows
              c
              (put_items organization_id column observed_at items rows c)
      unfolding put_items
      put_items-IsUntouched [] rows c h held =
          (with_unchanged c (c.rows_unchanged) (c.rows_unchanged + 0) (omega arith), λ o l k. refl)
      put_items-IsUntouched (d ∷ items) rows c (new, rest) (here_is, held) =
          let rows' = put_item organization_id column observed_at d rows in
          let read = view-put_item_all organization_id column observed_at d rows in
          let later : All (IsHeld (view rows')) items =
            rw read (put_view-AllHeld d items (view rows) new held) in
          let (counted, kept) =
            put_items-IsUntouched items rows' (count_effect keeps c) rest later in
          subst
            (λ e.
              IsUntouched (suc (length items)) rows c
                (put_items organization_id column observed_at items rows' (count_effect e c)))
            (sym (effect_of-held d rows here_is))
            (
              counted
                  ∙ with_unchanged c (suc c.rows_unchanged + length items)
                      (c.rows_unchanged + suc (length items)) (omega arith),
              λ o l k.
                  kept o l k
                  ∙ ap (λ v. still (v o l k)) read
                  ∙ still-put_view d (view rows) here_is o l k,
            )

module _ (decimal : Reader) (plain : Decimal → String)
    (digest : List (String × Option String) → String) where
  -- The records that the normalization lets through, put into the table of an organization twice, at any
  -- two times: the second time all of them are counted as unchanged, and every row is as it was after the
  -- first time, but for when it was last observed.
  pub put_again-IsUntouched :
      (pages : List DispatchPage) (items : List NormalizedDispatch)
      → normalize_pages decimal plain digest pages ≡ returned items
      → (organization_id : String) (column : Decimal → Decimal) (earlier later : ℕ)
        (rows : List DispatchRow) (c c' : RunCounts)
      → IsUntouched (length items) (put_items organization_id column earlier items rows c).0 c' (
          put_items organization_id column later items
            (put_items organization_id column earlier items rows c).0
            c')
  put_again-IsUntouched pages items h organization_id column earlier later rows c c' =
      let normal =
        Returns-at (AreNormal decimal plain digest) (normalize_pages decimal plain digest pages) h
          (normalize_pages-AreNormal decimal plain digest pages) in
      let rows' = (put_items organization_id column earlier items rows c).0 in
      let held : All (IsHeld organization_id (view rows')) items =
        rw (view-put_items organization_id column earlier items rows c) (
          replay-AllHeld organization_id column earlier decimal plain digest items (view rows)
            normal.1) in
      put_items-IsUntouched organization_id column later decimal plain digest items rows' c'
        normal.1 held
