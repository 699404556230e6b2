-- ===== src/Dispatch/Fetch.antt =====
-- The first half of `ingest_torqueai_dispatches` of
-- chief-of-staff/backend/app/connectors/torqueai_ingestion.py: the window and the pages are checked against
-- their bounds, and all pages are fetched before any record is looked at. Parameters are how the records
-- are normalized and the connector, after how many requests it is called.
use polaris_lab.Python.Float.{float_bound}
use polaris_lab.Base.{
  ℕ, zero, suc, ◌+◌, ◌-◌, ◌*◌, ◌/◌, Bool, ◌||◌, not, Option, none, some, List, [], ◌∷◌, ◌++◌,
  length, ltb, leb, ◌==◌, if◌then◌else◌,
}
use polaris_lab.Dispatch.Call.{other_fault, Call, raised, returned, ◌>>=◌, ◌>>◌, raise_if}
use polaris_lab.Dispatch.Connector.{DispatchPage}
use polaris_lab.Dispatch.Normalize.{NormalizedDispatch, ingestion_failure, malformed}
use polaris_lab.Dispatch.Persist.{torqueai_ingest_page_size, RunCounts}

abbrev pub torqueai_ingest_max_pages : ℕ
torqueai_ingest_max_pages = 10

abbrev pub torqueai_ingest_max_rows : ℕ
torqueai_ingest_max_rows = 1000

abbrev torqueai_ingest_max_range_days : ℕ
torqueai_ingest_max_range_days = 7

-- `_validate_window`
abbrev pub validate_range : ℕ → ℕ → Call (Unit {0})
validate_range date_from date_to = do
  raise_if (ltb date_to date_from) (ingestion_failure "invalid_request")
  raise_if (ltb torqueai_ingest_max_range_days (date_to - date_from + 1))
      (ingestion_failure "invalid_request")

-- `max(1, ceil(total / size))`
abbrev pub page_count : ℕ → ℕ → ℕ
page_count total size = if total == 0 then 1 else (total + size - 1) / size

-- `_required_pages`; the division raises OverflowError where the quotient has no float.
unfoldable pub required_pages : DispatchPage → Call ℕ
required_pages page = do
  raise_if (ltb page.items_per_page 1) malformed
  raise_if (leb (float_bound * page.items_per_page) page.total_count) other_fault
  returned (page_count page.total_count page.items_per_page)

abbrev pub bounded_pages : DispatchPage → Call ℕ
bounded_pages page = do
  needed ← required_pages page
  raise_if (ltb torqueai_ingest_max_rows page.total_count || ltb torqueai_ingest_max_pages needed)
      (ingestion_failure "ingestion_bound_exceeded")
  returned needed

abbrev pub contract_changed : DispatchPage → DispatchPage → Bool
contract_changed first_page page =
    not (page.total_count == first_page.total_count)
    || not (page.items_per_page == first_page.items_per_page)

-- The variables that a failure records.
pub record FetchProgress : Type 0 where
  pub pages_fetched : ℕ
  pub provider_total_count : Option ℕ
  pub rows_validated : ℕ

abbrev pub nothing_fetched : FetchProgress
nothing_fetched = record { pages_fetched = 0; provider_total_count = none; rows_validated = 0 }

abbrev pub counts_of : FetchProgress → RunCounts
counts_of p = record {
  pages_fetched = p.pages_fetched;
  provider_total_count = p.provider_total_count;
  rows_validated = p.rows_validated;
  rows_inserted = 0;
  rows_updated = 0;
  rows_unchanged = 0;
}

-- A part of the run: what it raised or gave, the variables then, and the requests sent.
pub record Fetched : Type 0 where
  pub items : Call (List NormalizedDispatch)
  pub progress : FetchProgress
  pub sent : ℕ

-- `connector.fetch_dispatches` after some number of requests.
abbrev pub Connector : Type 0
Connector = ℕ → ℕ → ℕ → ℕ → ℕ → Call DispatchPage × ℕ

module _ (normalize : List DispatchPage → Call (List NormalizedDispatch)) where
  abbrev counted_items : DispatchPage → FetchProgress → ℕ → Call (List NormalizedDispatch) → Fetched
  counted_items first_page p sent (raised e) = record {
    items = raised e;
    progress = p;
    sent = sent;
  }
  counted_items first_page p sent (returned items) = record {
    items = if length items == first_page.total_count then returned items else raised malformed;
    progress = record p { rows_validated = length items };
    sent = sent;
  }

  -- After the last page.
  abbrev pub after_pages : DispatchPage → FetchProgress → List DispatchPage → ℕ → Fetched
  after_pages first_page p pages sent = counted_items first_page p sent (normalize pages)

  -- The answer for a page besides the first; `go_on` is the rest of the loop.
  abbrev after_answer :
      DispatchPage
      → FetchProgress
      → (DispatchPage → FetchProgress → Fetched)
      → Call DispatchPage
      → ℕ
      → Fetched
  after_answer first_page p go_on (raised e) sent = record {
    items = raised e;
    progress = p;
    sent = sent;
  }
  after_answer first_page p go_on (returned page) sent =
      let p' = record p { pages_fetched = suc p.pages_fetched } in
      if contract_changed first_page page
      then record { items = raised malformed; progress = p'; sent = sent }
      else go_on page p'

  module _ (fetch : Connector) (date_from date_to : ℕ) where
    -- The loop over the pages that are left; `page_number` is the next one.
    unfoldable pub fetch_rest :
        ℕ → ℕ → DispatchPage → FetchProgress → List DispatchPage → ℕ → Fetched
    fetch_rest zero page_number first_page p pages sent = after_pages first_page p pages sent
    fetch_rest (suc left) page_number first_page p pages sent =
        let answer = fetch sent date_from date_to page_number torqueai_ingest_page_size in
        after_answer first_page p
          (λ page p'. fetch_rest left (suc page_number) first_page p' (pages ++ page ∷ []) answer.1)
          answer.0 answer.1

    abbrev after_bound : DispatchPage → FetchProgress → ℕ → Call ℕ → Fetched
    after_bound page p sent (raised e) = record { items = raised e; progress = p; sent = sent }
    after_bound page p sent (returned needed) = fetch_rest (needed - 1) 2 page p (page ∷ []) sent

    abbrev pub after_first : Call DispatchPage → ℕ → Fetched
    after_first (raised e) sent = record {
      items = raised e;
      progress = nothing_fetched;
      sent = sent;
    }
    after_first (returned page) sent =
        let p = record nothing_fetched {
          pages_fetched = 1;
          provider_total_count = some page.total_count;
        } in
        after_bound page p sent (bounded_pages page)

    -- The body of the first `try`.
    unfoldable pub fetch_all : ℕ → Fetched
    fetch_all sent =
        let answer = fetch sent date_from date_to 1 torqueai_ingest_page_size in
        after_first answer.0 answer.1
