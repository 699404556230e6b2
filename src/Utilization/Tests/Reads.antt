-- ===== src/Utilization/Tests/Reads.antt =====
-- The reader and the parser at the fleet of the tests.
use polaris_lab.Python.Float.{float_bound}
use polaris_lab.Base.{arith, suc, ◌+◌, ◌≤◌, ◌≡◌, refl, some, [], ◌∷◌, All}
use polaris_lab.Outcome.{ok}
use polaris_lab.Python.Value.{lookup}
use polaris_lab.Python.Text.{strip, str_int}
use polaris_lab.Utilization.Parser.{
  provider_vehicle_id, decimal_metric, parse_metrics, parse_rollup, parse_items,
  parse_vehicle_utilization_rollups,
}
use polaris_lab.Utilization.Parser.Laws.{Parses, IsParsed, parse-IsParsed}
use polaris_lab.Utilization.Http.{
  contract_json_response, required_api_key, selected_ids, page_request, payload_of, request_page,
}
use polaris_lab.Utilization.Metadata.{pagination_int, parse_pagination_metadata}
use polaris_lab.Utilization.Pages.{
  PaginatedRead, expected_page_count, agreed_totals, check_rollups, with_page, take_page,
  checked_page, finished, after_page, read_page, read_loop, read_vehicle_utilization_pages,
}
use polaris_lab.Utilization.Pages.Read.{read_one_page}
use polaris_lab.Utilization.Pages.Serve.{concat_rollups}
use polaris_lab.Utilization.Pages.Complete.{IsServed, read-Complete}
use polaris_lab.Utilization.Tests.Data.{read_half, payload, one_page, query, window, rollup}

parse-IsParsed_example :
    Parses
      (λ rs. All (IsParsed read_half "org" "slug" window) rs)
      (parse_vehicle_utilization_rollups read_half "org" "slug" window payload)
parse-IsParsed_example = parse-IsParsed read_half "org" "slug" window payload

abbrev one_read : PaginatedRead
one_read = record {
  rollups = rollup ∷ [];
  pages = record { page_no = 1; per_page = 100; rollups = rollup ∷ [] } ∷ [];
  pagination_total = 1;
  pages_read = 1;
  provider_calls = 1;
  expected_pages = 1;
}

read_runs :
    read_vehicle_utilization_pages read_half one_page (some "key") query 0 ≡ (ok one_read, 1)
unfolding strip str_int lookup provider_vehicle_id decimal_metric parse_metrics parse_rollup
    parse_items parse_vehicle_utilization_rollups contract_json_response required_api_key
    selected_ids page_request payload_of request_page pagination_int parse_pagination_metadata
    expected_page_count agreed_totals check_rollups with_page take_page checked_page finished
    after_page read_page read_loop read_vehicle_utilization_pages float_bound
read_runs = refl

read_one_page_example : 1 ≤ 0 + 1
unfolding selected_ids
read_one_page_example =
    read_one_page read_half one_page (some "key") query 0 one_read 1 (omega arith) read_runs

served : IsServed read_half one_page (some "key") query 1 0 ((rollup ∷ []) ∷ [])
unfolding strip str_int lookup provider_vehicle_id decimal_metric parse_metrics parse_rollup
    parse_items parse_vehicle_utilization_rollups contract_json_response required_api_key
    selected_ids page_request payload_of request_page pagination_int parse_pagination_metadata
    expected_page_count
served = record {
  serves = (record { payload = payload; page = refl; metadata = refl; rollups = refl }, tt);
  paged = refl;
  guarded = omega arith;
  sizes = (omega arith, tt);
  filled = (refl, tt);
  selected = ((refl, tt), tt);
  distinct = (refl, tt);
  total_count = refl;
}

read-Complete_example :
    (out : PaginatedRead) × (read_vehicle_utilization_pages read_half one_page (some "key") query 0
      ≡ (ok out, 0 + suc 0))
    × (out.rollups ≡ concat_rollups ((rollup ∷ []) ∷ []))
unfolding selected_ids
read-Complete_example =
    read-Complete read_half one_page (some "key") query 1 0 (rollup ∷ []) []
      (λ none_selected. omega (arith, none_selected)) refl served
