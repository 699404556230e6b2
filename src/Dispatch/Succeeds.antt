-- ===== src/Dispatch/Succeeds.antt =====
-- When a run of `ingest_torqueai_dispatches`, chief-of-staff/backend/app/connectors/torqueai_ingestion.py,
-- succeeds.
use polaris_lab.Python.Float.{float_bound, float_bound_large, has_float}
use polaris_lab.Dispatch.Tally.{put_items-IsCounted}
use mathlib.Core.List.{append-nil, append_assoc}
use polaris_lab.Base.{
  eq→==, le→ltb, ℕ, zero, suc, ◌+◌, ◌-◌, ◌≤◌, String, false, Option, none, some, List, [], ◌∷◌,
  ◌++◌, length, ◌≡◌, refl, sym, ap, ◌∙◌, arith,
}
use polaris_lab.Python.Decimal.{Decimal}
use polaris_lab.Dispatch.Call.{Call, returned}
use polaris_lab.Dispatch.Connector.{DispatchPage}
use polaris_lab.Dispatch.Normalize.{NormalizedDispatch}
use polaris_lab.Dispatch.Tables.{DispatchTables, DispatchSession}
use polaris_lab.Dispatch.Persist.{RunCounts, Ingestion, torqueai_ingest_page_size, stage_success}
use polaris_lab.Dispatch.Fetch.{
  nothing_fetched, required_pages, bounded_pages, FetchProgress, counts_of, Connector, fetch_rest,
  fetch_all,
}
use polaris_lab.Dispatch.Tally.{put_items-IsCounted}
use polaris_lab.Dispatch.Ingest.{
  write_batch, ingest_pages, ingest_claimed, Refusals, load_claimed_run, ingest_dispatches,
}
use polaris_lab.Dispatch.Served.{
  IsFull, IsServed, page_count_lem, pages_from, pred_lem, window_fits,
}

module _ (normalize : List DispatchPage → Call (List NormalizedDispatch)) (fetch : Connector)
    (date_from date_to : ℕ) (pages : ℕ → DispatchPage) (more : ℕ)
    (served : IsServed fetch date_from date_to pages more) (items : List NormalizedDispatch)
    (all_there : length items ≡ (pages 1).total_count) where
  fetch_rest-IsFull :
      (left n : ℕ) (p : FetchProgress) (done : List DispatchPage) (sent : ℕ)
      → 1 ≤ n
      → n + left ≤ suc (suc more)
      → normalize (done ++ pages_from pages left n) ≡ returned items
      → IsFull
          (p.pages_fetched + left)
          items
          (fetch_rest normalize fetch date_from date_to left n (pages 1) p done sent)
  unfolding fetch_rest
  fetch_rest-IsFull zero n p done sent low high h =
      let normal : normalize done ≡ returned items = ap normalize (sym (append-nil done)) ∙ h in
      rw (normal, eq→== (length items) (pages 1).total_count all_there)
        (record { gives = refl; pages = omega arith; validated = refl })
  fetch_rest-IsFull (suc left) n p done sent low high h =
      let within : n ≤ suc more = omega (arith, high) in
      let page = pages n in
      let sent' = (fetch sent date_from date_to n torqueai_ingest_page_size).1 in
      let rest =
        fetch_rest-IsFull left (suc n) (record p { pages_fetched = suc p.pages_fetched })
          (done ++ page ∷ []) sent' (omega arith) (omega (arith, high))
          (ap normalize (append_assoc done (page ∷ []) (pages_from pages left (suc n))) ∙ h) in
      rw (served.answers sent n low within, served.agrees n low within)
        (record {
          gives = rest.gives;
          pages = omega (arith, rest.pages);
          validated = rest.validated;
        })

  required_pages-served : required_pages (pages 1) ≡ returned (suc more)
  unfolding required_pages
  required_pages-served =
      let page = pages 1 in
      rw
        (
          le→ltb page.items_per_page 1 served.sized,
          has_float float_bound page.items_per_page page.total_count float_bound_large served.sized
              (omega (arith, served.small)),
        )
        (ap returned
          (page_count_lem more page.items_per_page page.total_count served.sized served.needed))

  bounded_pages-served : bounded_pages (pages 1) ≡ returned (suc more)
  bounded_pages-served =
      rw
        (
          required_pages-served,
          le→ltb 1000 (pages 1).total_count served.small,
          le→ltb 10 (suc more) (omega (arith, served.few)),
        )
        refl

  fetch_all-IsFull :
      (sent : ℕ)
      → normalize (pages_from pages (suc more) 1) ≡ returned items
      → IsFull (suc more) items (fetch_all normalize fetch date_from date_to sent)
  unfolding fetch_all
  fetch_all-IsFull sent h =
      let sent' = (fetch sent date_from date_to 1 torqueai_ingest_page_size).1 in
      let start = record nothing_fetched {
        pages_fetched = 1;
        provider_total_count = some (pages 1).total_count;
      } in
      let rest =
        fetch_rest-IsFull more 2 start (pages 1 ∷ []) sent' (omega arith) (omega arith) h in
      rw (served.answers sent 1 (omega arith) (omega arith), bounded_pages-served, pred_lem more)
        (record {
          gives = rest.gives;
          pages = omega (arith, rest.pages);
          validated = rest.validated;
        })

-- A run that returns, its pages and its records.
pub record IsSuccess (count rows : ℕ) (r : Call RunCounts) : Type 0 where
  pub counts : RunCounts
  pub returns : r ≡ returned counts
  pub pages : counts.pages_fetched ≡ count
  pub validated : counts.rows_validated ≡ rows

module _ (db : Refusals) (column : Decimal → Decimal)
    (accepts : (t : DispatchTables) → db.refuses_write t ≡ false) where
  -- The run was not claimed, or its claim is found.
  abbrev HasClaim : Ingestion → DispatchTables → Option String → Type 0
  HasClaim call tables none = Unit
  HasClaim call tables (some run_id) = load_claimed_run db column call run_id tables ≡ returned tt

  write_batch-IsSuccess :
      (call : Ingestion) (p : FetchProgress) (items : List NormalizedDispatch) (s : DispatchSession)
      → IsSuccess p.pages_fetched p.rows_validated (write_batch db column call p items s).0
  write_batch-IsSuccess call p items s =
      let counted =
        put_items-IsCounted call.organization_id column call.observed_at items s.working.dispatches
          (counts_of p) in
      rw (accepts (stage_success column call (counts_of p) items s.working).0) (record {
        counts = (stage_success column call (counts_of p) items s.working).1;
        returns = refl;
        pages = counted.pages;
        validated = counted.validated;
      })

  module _ (normalize : List DispatchPage → Call (List NormalizedDispatch)) (fetch : Connector)
      (call : Ingestion) (pages : ℕ → DispatchPage) (more : ℕ)
      (served : IsServed fetch call.date_from call.date_to pages more)
      (items : List NormalizedDispatch) (all_there : length items ≡ (pages 1).total_count)
      (normal : normalize (pages_from pages (suc more) 1) ≡ returned items) where
    ingest_pages-IsSuccess :
        (s : DispatchSession) (sent : ℕ)
        → IsSuccess
            (suc more)
            (length items)
            (ingest_pages db column normalize fetch call s sent).0.0
    ingest_pages-IsSuccess s sent =
        let full =
          fetch_all-IsFull normalize fetch call.date_from call.date_to pages more served items
            all_there sent normal in
        let f = fetch_all normalize fetch call.date_from call.date_to sent in
        let done = write_batch-IsSuccess call f.progress items s in
        rw full.gives (record {
          counts = done.counts;
          returns = done.returns;
          pages = done.pages ∙ full.pages;
          validated = done.validated ∙ full.validated;
        })

    ingest_claimed-IsSuccess :
        (s : DispatchSession) (sent : ℕ) (claimed : Option String)
        → HasClaim call s.working claimed
        → IsSuccess
            (suc more)
            (length items)
            (ingest_claimed db column normalize fetch call s sent claimed).0.0
    ingest_claimed-IsSuccess s sent none h = ingest_pages-IsSuccess s sent
    ingest_claimed-IsSuccess s sent (some run_id) h = rw h (ingest_pages-IsSuccess s sent)

    -- An ingestion of at most seven days returns, with the number of its pages and of its records, when
    -- the run was not claimed or its claim is found, the connector answers every page with the total and
    -- the size of the first, which are within the bounds of a run, the records that they hold are let
    -- through and as many as the total, and the database accepts what is written.
    pub ingest_succeeds :
        (s : DispatchSession) (sent : ℕ)
        → call.date_from ≤ call.date_to
        → call.date_to - call.date_from + 1 ≤ 7
        → HasClaim call s.working call.claimed_run_id
        → IsSuccess
            (suc more)
            (length items)
            (ingest_dispatches db column normalize fetch call s sent).0.0
    unfolding ingest_dispatches
    ingest_succeeds s sent low high claim =
        rw (window_fits call.date_from call.date_to low high)
          (ingest_claimed-IsSuccess s sent call.claimed_run_id claim)
