-- ===== src/Dispatch/Fetches.antt =====
-- The pages that a run of chief-of-staff/backend/app/connectors/torqueai_ingestion.py fetches.
use polaris_lab.Base.{
  ℕ, zero, suc, ◌+◌, ◌-◌, ◌≤◌, false, ◌||◌, some, List, [], ◌∷◌, ◌++◌, length, ltb, ◌==◌, ◌≡◌, refl,
  sym, ap, ◌∙◌, inl, inr, Bool-cases, arith, ==→eq,
}
use polaris_lab.Dispatch.Call.{
  Fault, Call, raised, returned, Call-cases, Returns, gave, Returns-at, raise_if-Returns,
  >>=-Returns,
}
use polaris_lab.Dispatch.Connector.{DispatchPage}
use polaris_lab.Dispatch.Normalize.{NormalizedDispatch, ingestion_failure}
use polaris_lab.Dispatch.Persist.{torqueai_ingest_page_size}
use polaris_lab.Dispatch.Fetch.{
  required_pages, torqueai_ingest_max_rows, torqueai_ingest_max_pages, bounded_pages,
  contract_changed, FetchProgress, nothing_fetched, Fetched, Connector, after_pages, fetch_rest,
  after_first, fetch_all,
}

-- Records that are all there: as many as the provider counts, and at most a thousand.
pub record IsWhole (p : FetchProgress) (items : List NormalizedDispatch) : Type 0 where
  pub validated : p.rows_validated ≡ length items
  pub total : p.provider_total_count ≡ some (length items)
  pub bounded : length items ≤ 1000

abbrev pub IsWholeCall : FetchProgress → Call (List NormalizedDispatch) → Type 0
IsWholeCall p (raised e) = Unit
IsWholeCall p (returned items) = IsWhole p items

-- At most so many requests and pages, and whole records if there are any.
pub record IsFetched (requests pages : ℕ) (f : Fetched) : Type 0 where
  pub sent_bound : f.sent ≤ requests
  pub pages_bound : f.progress.pages_fetched ≤ pages
  pub whole : IsWholeCall f.progress f.items

-- A connector sends at most one request for a call.
abbrev pub IsSingle : Connector → Type 0
IsSingle fetch = (sent a b page limit : ℕ) → (fetch sent a b page limit).1 ≤ sent + 1

failed_fetch :
    {requests pages : ℕ} {e : Fault} {p : FetchProgress} {sent : ℕ}
    → sent ≤ requests
    → p.pages_fetched ≤ pages
    → IsFetched requests pages (record { items = raised e; progress = p; sent = sent })
failed_fetch h k = record { sent_bound = h; pages_bound = k; whole = tt }

both_small : (t n : ℕ) → (ltb 1000 t || ltb 10 n) ≡ false → (t ≤ 1000) × (n ≤ 10)
both_small t n h = ground arith

module _ (normalize : List DispatchPage → Call (List NormalizedDispatch)) where
  after_pages-IsFetched :
      (first_page : DispatchPage) (p : FetchProgress) (pages : List DispatchPage) (sent : ℕ)
      → p.provider_total_count ≡ some first_page.total_count
      → first_page.total_count ≤ 1000
      → IsFetched sent p.pages_fetched (after_pages normalize first_page p pages sent)
  after_pages-IsFetched first_page p pages sent t b = elim (Call-cases (normalize pages)) [
    | inr (e, h) ↦ rw (h) (failed_fetch (omega arith) (omega arith))
    | inl (items, h) ↦ elim (Bool-cases (length items == first_page.total_count)) [
      | inl k ↦
          let same = ==→eq (length items) first_page.total_count k in
          rw (h, k)
            (record {
              sent_bound = omega arith;
              pages_bound = omega arith;
              whole = record {
                validated = refl;
                total = t ∙ ap some (sym same);
                bounded = omega (arith, same, b);
              };
            })
      | inr k ↦ rw (h, k) (failed_fetch (omega arith) (omega arith))
    ]
  ]

  module _ (fetch : Connector) (single : IsSingle fetch) (date_from date_to : ℕ) where
    fetch_rest-IsFetched :
        (left page_number : ℕ) (first_page : DispatchPage) (p : FetchProgress)
        (pages : List DispatchPage) (sent : ℕ)
        → p.provider_total_count ≡ some first_page.total_count
        → first_page.total_count ≤ 1000
        → IsFetched
            (sent + left)
            (p.pages_fetched + left)
            (fetch_rest normalize fetch date_from date_to left page_number first_page p pages sent)
    unfolding fetch_rest
    fetch_rest-IsFetched zero page_number first_page p pages sent t b =
        let done = after_pages-IsFetched first_page p pages sent t b in
        record {
          sent_bound = omega (arith, done.sent_bound);
          pages_bound = omega (arith, done.pages_bound);
          whole = done.whole;
        }
    fetch_rest-IsFetched (suc left) page_number first_page p pages sent t b =
        let answer = fetch sent date_from date_to page_number torqueai_ingest_page_size in
        let one = single sent date_from date_to page_number torqueai_ingest_page_size in
        elim (Call-cases answer.0) [
          | inr (e, h) ↦ rw h (failed_fetch (omega (arith, one)) (omega arith))
          | inl (page, h) ↦ elim (Bool-cases (contract_changed first_page page)) [
            | inl k ↦ rw (h, k) (failed_fetch (omega (arith, one)) (omega arith))
            | inr k ↦
                let rest =
                  fetch_rest-IsFetched left (suc page_number) first_page
                    (record p { pages_fetched = suc p.pages_fetched }) (pages ++ page ∷ []) answer.1
                    t b in
                rw (h, k)
                  (record {
                    sent_bound = omega (arith, one, rest.sent_bound);
                    pages_bound = omega (arith, rest.pages_bound);
                    whole = rest.whole;
                  })
          ]
        ]

    bounded_pages-IsBounded :
        (page : DispatchPage)
        → Returns (λ needed. (page.total_count ≤ 1000) × (needed ≤ 10)) (bounded_pages page)
    bounded_pages-IsBounded page =
        >>=-Returns (λ needed. (page.total_count ≤ 1000) × (needed ≤ 10)) (required_pages page) _
          λ needed h.
            raise_if-Returns (λ needed. (page.total_count ≤ 1000) × (needed ≤ 10))
              (ltb torqueai_ingest_max_rows page.total_count
                || ltb torqueai_ingest_max_pages needed)
              (ingestion_failure "ingestion_bound_exceeded") (returned needed)
              λ small. gave (both_small page.total_count needed small)

    after_first-IsFetched :
        (answer : Call DispatchPage) (sent sent' : ℕ)
        → sent' ≤ sent + 1
        → IsFetched (sent + 10) 10 (after_first normalize fetch date_from date_to answer sent')
    after_first-IsFetched (raised e) sent sent' one =
        failed_fetch (omega (arith, one)) (omega arith)
    after_first-IsFetched (returned page) sent sent' one = elim (Call-cases (bounded_pages page)) [
      | inr (e, h) ↦ rw (h) (failed_fetch (omega (arith, one)) (omega arith))
      | inl (needed, h) ↦
          let (total, few) =
            Returns-at (λ needed. (page.total_count ≤ 1000) × (needed ≤ 10)) (bounded_pages page) h
              (bounded_pages-IsBounded page) in
          let rest =
            fetch_rest-IsFetched (needed - 1) 2 page
              (record nothing_fetched {
                pages_fetched = 1;
                provider_total_count = some page.total_count;
              })
              (page ∷ []) sent' refl total in
          rw (h) (record {
            sent_bound = omega (arith, one, rest.sent_bound, few);
            pages_bound = omega (arith, rest.pages_bound, few);
            whole = rest.whole;
          })
    ]

    pub fetch_all-IsFetched :
        (sent : ℕ) → IsFetched (sent + 10) 10 (fetch_all normalize fetch date_from date_to sent)
    unfolding fetch_all
    fetch_all-IsFetched sent =
        after_first-IsFetched (fetch sent date_from date_to 1 torqueai_ingest_page_size).0 sent
          (fetch sent date_from date_to 1 torqueai_ingest_page_size).1
          (single sent date_from date_to 1 torqueai_ingest_page_size)
