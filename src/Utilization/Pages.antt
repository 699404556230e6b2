-- ===== src/Utilization/Pages.antt =====
-- The paginated reader of
-- chief-of-staff/backend/app/connectors/motive_vehicle_utilization_pagination.py: the loop over the
-- pages (`read_vehicle_utilization_pages`).
-- The loop runs on fuel; `max_vehicle_utilization_pages` rounds are enough for every provider. The
-- division `total / per_page` raises where the quotient has no float. Up to the page guard its ceiling is the
-- exact one, since a size is at most 100 and the quotient differs from an integer by a hundredth or not at
-- all; above the guard both are.
pub mod Page
pub mod Step
pub mod Loop
pub mod Read
pub mod Serve
pub mod Complete
use polaris_lab.Python.Float.{float_bound}
use polaris_lab.Base.{
  ◌*◌, ℕ, zero, suc, ◌+◌, ◌-◌, ◌/◌, String, Bool, true, false, ◌&&◌, ◌||◌, not, Option, none, some,
  List, [], ◌∷◌, ◌++◌, map, ltb, leb, ◌==◌, if◌then◌else◌, str_eq, contains, length,
}
use polaris_lab.Base.Int.{ℤ, pos, negsuc}
use polaris_lab.Outcome.{
  unexpected, Exc, parse_error, pagination_error, out_of_fuel, Result, ok, err, ◌>>=◌, ◌>>◌,
  raise_if,
}
use Prim.Native.String
use polaris_lab.Python.Value.{Value, null, int, object, Fields, lookup, or_null}
use polaris_lab.Python.Decimal.{Reader}
use polaris_lab.Utilization.Rollup.{Rollup, RequestContext}
use polaris_lab.Utilization.Parser.{parse_vehicle_utilization_rollups}
use polaris_lab.Utilization.Http.{
  HttpClient, Query, max_provider_page_size, selected_ids, invalid_per_page, request_page,
}
use polaris_lab.Utilization.Metadata.{
  PaginationMetadata, checked_metadata, coded, exceeds, first_page, int_in_range,
  max_vehicle_utilization_pages, metadata_of, pagination_int, parse_pagination_metadata,
}

-- VehicleUtilizationPageRead
pub record PageRead : Type 0 where
  pub page_no : ℕ
  pub per_page : ℕ
  pub rollups : List Rollup

-- VehicleUtilizationPaginatedRead
pub record PaginatedRead : Type 0 where
  pub rollups : List Rollup
  pub pages : List PageRead
  pub pagination_total : ℕ
  pub pages_read : ℕ
  pub provider_calls : ℕ
  pub expected_pages : ℕ

-- `pagination_total` and `expected_pages`, which the first page sets together.
pub record Totals : Type 0 where
  pub pagination_total : ℕ
  pub expected_pages : ℕ

-- The variables of the loop.
pub record Progress : Type 0 where
  pub all_rollups : List Rollup
  pub pages : List PageRead
  pub seen_provider_vehicle_ids : List String
  pub provider_calls : ℕ
  pub totals : Option Totals

abbrev pub start : Progress
start = record {
  all_rollups = [];
  pages = [];
  seen_provider_vehicle_ids = [];
  provider_calls = 0;
  totals = none;
}

-- ceil(total / per_page), and one page for an empty total
unfoldable pub expected_page_count : ℕ → ℕ → ℕ
expected_page_count total per_page = if total == 0 then 1 else (total + per_page - 1) / per_page

-- The first total sets the number of pages, or overflows; every later one must be the same.
unfoldable pub agreed_totals : ℕ → Option Totals → ℕ → Result Totals
agreed_totals per_page none total =
    if leb (float_bound * per_page) total
    then err unexpected
    else if ltb max_vehicle_utilization_pages (expected_page_count total per_page)
    then err (pagination_error "pagination_page_guard_exceeded")
    else ok
        (record { pagination_total = total; expected_pages = expected_page_count total per_page })
agreed_totals per_page (some totals) total =
    if total == totals.pagination_total
    then ok totals
    else err (pagination_error "pagination_total_changed")

-- `except MotiveVehicleUtilizationParseError`
abbrev pub as_pagination_error {ℓ} : {A : Type ℓ} → Result A → Result A
as_pagination_error (err (parse_error code)) = err (pagination_error code)
as_pagination_error r = r

-- The loop over the rollups of a page: no vehicle twice, none that was not asked for.
unfoldable pub check_rollups : List String → List Rollup → List String → Result (List String)
check_rollups selected [] seen = ok seen
check_rollups selected (rollup ∷ rollups) seen =
    let id = rollup.provider_vehicle_id in
    let rest = check_rollups selected rollups (seen ++ id ∷ []) in
    if contains id seen
    then err (pagination_error "duplicate_vehicle_observed")
    else if not (contains id selected)
    then err (pagination_error "unexpected_vehicle_observed")
    else rest

abbrev is_empty_page : List Rollup → Bool
is_empty_page [] = true
is_empty_page (_ ∷ _) = false

-- The variables after a page has passed the checks.
unfoldable pub with_page : Progress → ℕ → ℕ → List Rollup → List String → Totals → Progress
with_page st page_no per_page rollups seen totals = record {
  all_rollups = st.all_rollups ++ rollups;
  pages = st.pages ++ record { page_no = page_no; per_page = per_page; rollups = rollups } ∷ [];
  seen_provider_vehicle_ids = seen;
  provider_calls = st.provider_calls + 1;
  totals = some totals;
}

module _ (decimal : Reader) (q : Query) where
  abbrev pub context : RequestContext
  context = record { request_start_date = some q.start_date; request_end_date = some q.end_date }

  -- The checks of the loop on the parsed rollups of a page, and the variables after it.
  unfoldable pub checked_page : ℕ → Progress → Totals → List Rollup → Result Progress
  checked_page page_no st totals rollups = do
    raise_if (ltb q.per_page (length rollups)) (pagination_error "page_item_count_exceeded")
    raise_if (is_empty_page rollups && ltb (length st.all_rollups) totals.pagination_total)
        (pagination_error "premature_empty_page")
    seen ← check_rollups (selected_ids q.provider_vehicle_ids) rollups st.seen_provider_vehicle_ids
    ok (with_page st page_no q.per_page rollups seen totals)

  -- What the loop does with the payload of page `page_no`.
  unfoldable pub take_page : ℕ → Progress → Value → Result Progress
  take_page page_no st payload = do
    metadata ← parse_pagination_metadata payload page_no q.per_page
    totals ← agreed_totals q.per_page st.totals metadata.total
    rollups ← as_pagination_error (
        parse_vehicle_utilization_rollups decimal q.organization_id q.organization_slug context
          payload)
    checked_page page_no st totals rollups

-- What the read returns when all pages were read.
abbrev pub paginated_read : Progress → Totals → PaginatedRead
paginated_read st totals = record {
  rollups = st.all_rollups;
  pages = st.pages;
  pagination_total = totals.pagination_total;
  pages_read = length st.pages;
  provider_calls = st.provider_calls;
  expected_pages = totals.expected_pages;
}

-- The check after the loop.
unfoldable pub finished : Progress → Totals → Result PaginatedRead
finished st totals =
    if length st.all_rollups == totals.pagination_total
    then ok (paginated_read st totals)
    else err (
        pagination_error (
          if ltb (length st.all_rollups) totals.pagination_total
          then "cumulative_rollup_count_below_total"
          else "cumulative_rollup_count_above_total"))

-- `some totals` once enough pages were read.
abbrev pub reached : Progress → Option Totals
reached st = elim st.totals [
  | none ↦ none
  | some totals ↦ if leb totals.expected_pages (length st.pages) then some totals else none
]

-- The end of a round: the loop stops after an exception or enough pages, or goes on to the next page.
unfoldable pub after_page :
    (ℕ → Progress → ℕ → Result PaginatedRead × ℕ)
    → ℕ
    → Result Progress × ℕ
    → Result PaginatedRead × ℕ
after_page next page_no (err e, sent) = (err e, sent)
after_page next page_no (ok st, sent) = elim (reached st) [
  | some totals ↦ (finished st totals, sent)
  | none ↦ next (page_no + 1) st sent
]

module _ (decimal : Reader) (client : HttpClient) (api_key : Option String) (q : Query) where
  unfoldable pub read_page : ℕ → Progress → ℕ → Result Progress × ℕ
  read_page page_no st sent =
      let (answer, sent') = request_page client api_key q page_no sent in
      (answer >>= take_page decimal q page_no st, sent')

  unfoldable pub read_loop : ℕ → ℕ → Progress → ℕ → Result PaginatedRead × ℕ
  unfolding after_page
  read_loop zero page_no st sent = (err out_of_fuel, sent)
  read_loop (suc fuel) page_no st sent =
      after_page (read_loop fuel) page_no (read_page page_no st sent)

  read_selected : List String → ℕ → Result PaginatedRead × ℕ
  read_selected [] sent = (err (pagination_error "no_stored_vehicle"), sent)
  read_selected (_ ∷ _) sent =
      if invalid_per_page q.per_page
      then (err (pagination_error "invalid_per_page_request"), sent)
      else read_loop max_vehicle_utilization_pages first_page start sent

  -- `read_vehicle_utilization_pages`, with the count of requests that the client has seen.
  unfoldable pub read_vehicle_utilization_pages : ℕ → Result PaginatedRead × ℕ
  unfolding read_selected
  read_vehicle_utilization_pages = read_selected (selected_ids q.provider_vehicle_ids)
