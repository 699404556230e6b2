-- ===== src/Utilization/Production/Page.antt =====
-- `_read_one_production_page` of
-- chief-of-staff/backend/app/motive/vehicle_utilization_production_ingestion.py: one request, and a page
-- that must be the only one. Its loop over the rollups is the check of the paginated reader.
use polaris_lab.Base.{ℕ, String, true, not, Option, some, List, [], length, ltb, ◌==◌}
use polaris_lab.Outcome.{pagination_error, Result, ok, ◌>>=◌, ◌>>◌, raise_if}
use polaris_lab.Python.Value.{Value}
use polaris_lab.Python.Decimal.{Reader}
use polaris_lab.Utilization.Rollup.{Date, Rollup, RequestContext}
use polaris_lab.Utilization.UnitPolicy.{imperial}
use polaris_lab.Utilization.Parser.{parse_vehicle_utilization_rollups}
use polaris_lab.Utilization.Http.{HttpClient, Query, request_page}
use polaris_lab.Utilization.Metadata.{parse_pagination_metadata}
use polaris_lab.Utilization.Pages.{as_pagination_error, check_rollups}
use polaris_lab.Utilization.Production.Select.{production_page_size}

module _ (decimal : Reader) (client : HttpClient) (api_key : Option String)
    (organization_id organization_slug : String) (ids : List String) (day : Date) where
  abbrev pub production_query : Query
  production_query = record {
    organization_id = organization_id;
    organization_slug = organization_slug;
    provider_vehicle_ids = ids;
    start_date = day;
    end_date = day;
    per_page = production_page_size;
    metric_units = true;
    unit_request_mode = some imperial;
  }

  abbrev pub one_day : RequestContext
  one_day = record { request_start_date = some day; request_end_date = some day }

  -- What is made of the payload.
  unfoldable pub only_page : Value → Result (List Rollup)
  only_page payload = do
    metadata ← parse_pagination_metadata payload 1 production_page_size
    raise_if (ltb production_page_size metadata.total)
        (pagination_error "production_pagination_requires_second_page")
    rollups ← as_pagination_error (
        parse_vehicle_utilization_rollups decimal organization_id organization_slug one_day payload)
    raise_if (not (length rollups == metadata.total))
        (pagination_error "production_pagination_total_mismatch")
    seen ← check_rollups ids rollups []
    ok rollups

  abbrev pub after_request : Result Value × ℕ → Result (List Rollup) × ℕ
  after_request (answer, sent) = (answer >>= only_page, sent)

  -- `_read_one_production_page`, with the count of the requests sent.
  unfoldable pub read_one_production_page : ℕ → Result (List Rollup) × ℕ
  read_one_production_page sent =
      after_request (request_page client api_key production_query 1 sent)
