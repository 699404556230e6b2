-- ===== src/Utilization/Pages/Step.antt =====
-- The invariant of the loop over the pages, which the body keeps.
use polaris_lab.Python.Float.{float_bound}
use polaris_lab.Base.{
  ◌*◌, inl, inr, ◌⊎◌, ℕ, suc, ◌≤◌, String, ◌≡◌, refl, sym, true, false, ◌&&◌, some, List, [], ◌∷◌,
  ◌++◌, arith, ltb, contains, length, All, All-append, Nodup, length-append,
}
use mathlib.Core.List.{append-nil, map-append}
use polaris_lab.Outcome.{unexpected, err, Result-cases, ok}
use polaris_lab.Python.Value.{Value}
use polaris_lab.Python.Decimal.{Reader}
use polaris_lab.Utilization.Rollup.{Rollup}
use polaris_lab.Utilization.Parser.{parse_vehicle_utilization_rollups}
use polaris_lab.Utilization.Parser.Laws.{IsParsed, parse-IsParsed}
use polaris_lab.Utilization.Http.{Query, selected_ids}
use polaris_lab.Utilization.Metadata.{PaginationMetadata, parse_pagination_metadata}
use polaris_lab.Utilization.Pages.{
  PageRead, Totals, Progress, agreed_totals, as_pagination_error, check_rollups, is_empty_page,
  checked_page, context, with_page, take_page, start,
}
use polaris_lab.Utilization.Pages.Page.{
  vehicle_ids, Paginates, check_rollups-Paginates, metadata-Paginates, IsBounded, AreBounded,
  Continues, agreed_totals-cases, Paginates-bind, raise_if-Paginates, flat_pages, flat_pages-append,
  AreNumbered, AreNumbered-snoc,
}

module _ (decimal : Reader) (q : Query) where
  abbrev pub IsSelected : Rollup → Type 0
  IsSelected r = contains r.provider_vehicle_id (selected_ids q.provider_vehicle_ids) ≡ true

  abbrev pub IsOfQuery : Rollup → Type 0
  IsOfQuery = IsParsed decimal q.organization_id q.organization_slug (context decimal q)

  abbrev pub IsSized : PageRead → Type 0
  IsSized p = length p.rollups ≤ q.per_page

  pub record IsReading (st : Progress) : Type 0 where
    pub seen : st.seen_provider_vehicle_ids ≡ vehicle_ids st.all_rollups
    pub distinct : Nodup st.seen_provider_vehicle_ids
    pub selected : All IsSelected st.all_rollups
    pub parsed : All IsOfQuery st.all_rollups
    pub calls : st.provider_calls ≡ length st.pages
    pub contents : st.all_rollups ≡ flat_pages st.pages
    pub sizes : All IsSized st.pages
    pub numbers : AreNumbered 1 st.pages
    pub bounded : AreBounded q.per_page st.totals

  pub start-IsReading : IsReading start
  start-IsReading = ground arith

  parsed_page :
      (payload : Value)
      → Paginates
          (λ rs. All IsOfQuery rs)
          (as_pagination_error (
            parse_vehicle_utilization_rollups decimal q.organization_id q.organization_slug
              (context decimal q)
              payload))
  parsed_page payload = ground (
    arith,
    parse-IsParsed decimal q.organization_id q.organization_slug (context decimal q) payload,
  )

  module _ (st : Progress) (page_no : ℕ) (rs : List Rollup) (seen : List String) (t : Totals)
      (h : IsReading st) (next : page_no ≡ suc (length st.pages)) where
    abbrev page : PageRead
    page = record { page_no = page_no; per_page = q.per_page; rollups = rs }

    with_page-IsReading :
        seen ≡ st.seen_provider_vehicle_ids ++ vehicle_ids rs
        → Nodup seen
        → All IsSelected rs
        → All IsOfQuery rs
        → length rs ≤ q.per_page
        → IsBounded q.per_page t
        → IsReading (with_page st page_no q.per_page rs seen t)
    unfolding with_page
    with_page-IsReading es ns sel par size b = record {
      seen = rw (es, h.seen) (sym (map-append (λ r. r.provider_vehicle_id) st.all_rollups rs));
      distinct = ns;
      selected = All-append IsSelected st.all_rollups rs h.selected sel;
      parsed = All-append IsOfQuery st.all_rollups rs h.parsed par;
      calls = omega (arith, h.calls, length-append st.pages (page ∷ []));
      contents = rw (h.contents, flat_pages-append st.pages (page ∷ [])) (rw append-nil);
      sizes = All-append IsSized st.pages (page ∷ []) h.sizes (size, tt);
      numbers = AreNumbered-snoc 1 st.pages page h.numbers (omega (arith, next));
      bounded = b;
    }

  -- One more page was read, the invariant holds and the totals are known.
  abbrev pub Advances : Progress → Progress → Type 0
  Advances st st' =
      IsReading st'
      × (length st'.pages ≡ suc (length st.pages))
      × ((t : Totals) × (st'.totals ≡ some t) × IsBounded q.per_page t × Continues st.totals t)

  with_page_pages :
      (st : Progress) (page_no : ℕ) (rs : List Rollup) (seen : List String) (t : Totals)
      → (length (with_page st page_no q.per_page rs seen t).pages ≡ suc (length st.pages))
        × ((with_page st page_no q.per_page rs seen t).totals ≡ some t)
  unfolding with_page
  with_page_pages st page_no rs seen t = (omega (arith, length-append {0} st.pages), refl)

  checked_page-Advances :
      (st : Progress) (page_no : ℕ) (t : Totals) (rs : List Rollup)
      → IsReading st
      → page_no ≡ suc (length st.pages)
      → IsBounded q.per_page t
      → Continues st.totals t
      → All IsOfQuery rs
      → Paginates (Advances st) (checked_page decimal q page_no st t rs)
  unfolding checked_page
  checked_page-Advances st page_no t rs h next bounded continues parsed =
      raise_if-Paginates (Advances st) (ltb q.per_page (length rs)) "page_item_count_exceeded" _
        λ size.
          raise_if-Paginates (Advances st)
            (is_empty_page rs && ltb (length st.all_rollups) t.pagination_total)
            "premature_empty_page" _
            λ _.
              Paginates-bind
                (λ seen'.
                  (seen' ≡ st.seen_provider_vehicle_ids ++ vehicle_ids rs)
                  × Nodup seen'
                  × All IsSelected rs)
                (Advances st)
                (check_rollups (selected_ids q.provider_vehicle_ids) rs
                  st.seen_provider_vehicle_ids)
                (λ seen. ok (with_page st page_no q.per_page rs seen t))
                (check_rollups-Paginates _ rs st.seen_provider_vehicle_ids h.distinct)
                λ seen k. advanced_page seen k size
    where
      advanced_page :
          (seen : List String)
          → (seen ≡ st.seen_provider_vehicle_ids ++ vehicle_ids rs) × Nodup seen × All IsSelected rs
          → ltb q.per_page (length rs) ≡ false
          → Advances st (with_page st page_no q.per_page rs seen t)
      advanced_page seen (es, ns, sel) size =
          let (len, known) = with_page_pages st page_no rs seen t in
          (
            with_page-IsReading st page_no rs seen t h next es ns sel parsed (ground arith) bounded,
            len,
            (t, known, bounded, continues),
          )

  -- The metadata of a payload states a total whose number of pages has no float.
  abbrev pub StatesHuge : ℕ → Value → Type 0
  StatesHuge page_no payload =
      (metadata : PaginationMetadata) × (parse_pagination_metadata payload page_no q.per_page
        ≡ ok metadata)
      × (float_bound * q.per_page ≤ metadata.total)

  known_metadata :
      (st : Progress) (page_no : ℕ) (payload : Value) (metadata : PaginationMetadata)
      → 1 ≤ q.per_page
      → IsReading st
      → page_no ≡ suc (length st.pages)
      → parse_pagination_metadata payload page_no q.per_page ≡ ok metadata
      → Paginates (Advances st) (take_page decimal q page_no st payload)
        ⊎ (StatesHuge page_no payload × (take_page decimal q page_no st payload ≡ err unexpected))
  unfolding take_page
  known_metadata st page_no payload metadata p h next known =
      elim (agreed_totals-cases q.per_page st.totals metadata.total p h.bounded) [
        | inr (huge, raised) ↦ inr ((metadata, known, huge), rw (known, raised) refl)
        | inl agreed ↦ inl (
            rw known (
              Paginates-bind (λ t. IsBounded q.per_page t × Continues st.totals t) (Advances st)
                (agreed_totals q.per_page st.totals metadata.total) _ agreed
                λ t (bounded, continues).
                  Paginates-bind (λ rs. All IsOfQuery rs) (Advances st) _ _ (parsed_page payload)
                    λ rs parsed.
                      checked_page-Advances st page_no t rs h next bounded continues parsed))
      ]

  -- The body of the loop reads one more page and keeps the invariant, or raises a pagination error, or
  -- the total that the page states overflows.
  pub take_page-cases :
      (st : Progress) (page_no : ℕ) (payload : Value)
      → 1 ≤ q.per_page
      → IsReading st
      → page_no ≡ suc (length st.pages)
      → Paginates (Advances st) (take_page decimal q page_no st payload)
        ⊎ (StatesHuge page_no payload × (take_page decimal q page_no st payload ≡ err unexpected))
  unfolding take_page
  take_page-cases st page_no payload p h next =
      elim (Result-cases (parse_pagination_metadata payload page_no q.per_page)) [
        | inl (metadata, known) ↦ known_metadata st page_no payload metadata p h next known
        | inr (e, refused) ↦
            inl (rw refused (rw refused at (metadata-Paginates payload page_no q.per_page)))
      ]
