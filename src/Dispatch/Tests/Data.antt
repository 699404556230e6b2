-- ===== src/Dispatch/Tests/Data.antt =====
-- The providers, the database and the runs of the dispatch tests.
use polaris_lab.Base.{
  ◌==◌, ℕ, String, true, false, Option, none, some, List, [], ◌∷◌, str_eq, if◌then◌else◌,
}
use polaris_lab.Base.Int.{pos}
use polaris_lab.Python.Value.{Value, int, text, list, object, Fields, nil, cons, end, field}
use polaris_lab.Python.Decimal.{Decimal, finite, Reader}
use polaris_lab.Utilization.Http.{Sent, answered}
use polaris_lab.Backfill.Tables.{Organization}
use polaris_lab.Dispatch.Slots.{SlotWindow, Trigger}
use polaris_lab.Dispatch.Schedule.{ClaimRefusals}
use polaris_lab.Dispatch.Call.{Call}
use polaris_lab.Dispatch.Request.{Settings, SplitUrl, DispatchRequest}
use polaris_lab.Dispatch.Connector.{DispatchPage, fetch_dispatches}
use polaris_lab.Dispatch.Normalize.{NormalizedDispatch, normalize_pages}
use polaris_lab.Dispatch.Tables.{DispatchTables, DispatchSession}
use polaris_lab.Dispatch.Persist.{RunCounts, Ingestion}
use polaris_lab.Dispatch.Fetch.{Connector}
use polaris_lab.Dispatch.Ingest.{Refusals, ingest_dispatches}

-- The decimals of the test are halves.
abbrev pub read_halves : Reader
read_halves t = if str_eq t "12.5" then some (finite (pos 125) 1) else none

abbrev pub plain : Decimal → String
plain d = "12.50"

-- A digest that keeps the order number.
abbrev pub digest : List (String × Option String) → String
digest (load ∷ order ∷ rest) = elim order.1 [ none ↦ "" | some t ↦ t ]
digest _ = ""

abbrev pub parse_date : String → Option ℕ
parse_date t = if str_eq t "2026-01-05" then some 739621 else none

abbrev pub split_url : String → Option SplitUrl
split_url t = some (record {
  scheme = "https";
  netloc = "api.example";
  path = "";
  query = "";
  fragment = "";
  username = none;
  password = none;
})

abbrev pub settings : Settings
settings = record {
  scope_slug = some " mor-logistics ";
  token = some "token";
  base_url = some "https://api.example/";
}

abbrev pub one_dispatch : Fields
one_dispatch = field "loadNumber" (int (pos 12)) (field "orderNumber" (text " A7 ") end)

abbrev pub payload : Value
payload = object (
    field "data" (list (cons (object one_dispatch) nil)) (
      field "totalCount" (int (pos 1)) (
        field "page" (int (pos 1)) (
          field "itemsPerPage" (int (pos 100)) (
            field "dateRange"
              (object (field "from" (text "2026-01-05") (field "to" (text "2026-01-05") end)))
              end)))))

abbrev pub client : ℕ → DispatchRequest → Sent
client sent request =
    answered (record { status_code = 200; has_content = true; json = some payload })

abbrev pub connector : Connector
connector = fetch_dispatches parse_date split_url client settings "mor-logistics"

abbrev pub refuses_nothing : Refusals
refuses_nothing = record {
  refuses_load = λ tables. false;
  refuses_write = λ tables. false;
  refuses_record = λ tables. false;
}

abbrev pub same_decimal : Decimal → Decimal
same_decimal d = d

abbrev pub one_day : Ingestion
one_day = record {
  organization_id = "org";
  organization_slug = "mor-logistics";
  date_from = 739621;
  date_to = 739621;
  claimed_run_id = none;
  drawn_run_id = "run";
  started_at = 1;
  observed_at = 2;
  completed_at = 3;
  failed_at = 4;
}

abbrev pub no_tables : DispatchTables
no_tables = record { dispatches = []; runs = []; states = [] }

abbrev pub empty_session : DispatchSession
empty_session = record { committed = no_tables; working = no_tables }

abbrev pub normalize : List DispatchPage → Call (List NormalizedDispatch)
normalize = normalize_pages read_halves plain digest

abbrev pub first_run : (Call RunCounts × DispatchSession) × ℕ
first_run =
    ingest_dispatches refuses_nothing same_decimal normalize connector one_day empty_session 0

abbrev pub one_inserted : RunCounts
one_inserted = record {
  pages_fetched = 1;
  provider_total_count = some 1;
  rows_validated = 1;
  rows_inserted = 1;
  rows_updated = 0;
  rows_unchanged = 0;
}

abbrev pub one_page : DispatchPage
one_page = record {
  data_items = one_dispatch ∷ [];
  total_count = 1;
  page = 1;
  items_per_page = 100;
  date_from = 739621;
  date_to = 739621;
}

-- A provider with two dispatches, one on each page.
abbrev pub second_dispatch : Fields
second_dispatch = field "loadNumber" (int (pos 13)) (field "orderNumber" (text "B8") end)

abbrev pub dispatch_at : ℕ → Fields
dispatch_at n = if n == 1 then one_dispatch else second_dispatch

abbrev pub page_at : ℕ → DispatchPage
page_at n = record {
  data_items = dispatch_at n ∷ [];
  total_count = 2;
  page = n;
  items_per_page = 1;
  date_from = 739621;
  date_to = 739621;
}

abbrev pub payload_at : ℕ → Value
payload_at n = object (
    field "data" (list (cons (object (dispatch_at n)) nil)) (
      field "totalCount" (int (pos 2)) (
        field "page" (int (pos n)) (
          field "itemsPerPage" (int (pos 1)) (
            field "dateRange"
              (object (field "from" (text "2026-01-05") (field "to" (text "2026-01-05") end)))
              end)))))

abbrev pub paged_client : ℕ → DispatchRequest → Sent
paged_client sent request =
    answered
      (record { status_code = 200; has_content = true; json = some (payload_at request.page) })

abbrev pub paged_connector : Connector
paged_connector = fetch_dispatches parse_date split_url paged_client settings "mor-logistics"

abbrev pub item_of : String → String → NormalizedDispatch
item_of load order = record {
  provider_load_number = load;
  provider_order_number = order;
  status = none;
  order_date_text = none;
  ship_date_text = none;
  delivery_date_text = none;
  customer_name = none;
  dispatcher_name = none;
  driver_name = none;
  carrier_name = none;
  truck_number = none;
  trailer_number = none;
  loaded_miles = none;
  source_fingerprint = order;
}

abbrev pub two_items : List NormalizedDispatch
two_items = item_of "12" "A7" ∷ item_of "13" "B8" ∷ []

-- The week before 2026-01-05, with one dispatch.
abbrev pub parse_week : String → Option ℕ
parse_week t =
    if str_eq t "2025-12-30"
    then some 739615
    else if str_eq t "2026-01-05"
    then some 739621
    else none

abbrev week_payload : Value
week_payload = object (
    field "data" (list (cons (object one_dispatch) nil)) (
      field "totalCount" (int (pos 1)) (
        field "page" (int (pos 1)) (
          field "itemsPerPage" (int (pos 100)) (
            field "dateRange"
              (object (field "from" (text "2025-12-30") (field "to" (text "2026-01-05") end)))
              end)))))

abbrev pub week_client : ℕ → DispatchRequest → Sent
week_client sent request =
    answered (record { status_code = 200; has_content = true; json = some week_payload })

abbrev pub week_connector : Connector
week_connector = fetch_dispatches parse_week split_url week_client settings "mor-logistics"

abbrev pub mor : Organization
mor = record { id = "org"; slug = "mor-logistics"; status = "active" }

-- 2026-01-05 at seven in the morning.
abbrev pub morning : Trigger
morning = record {
  timestamp = int (pos 1767596400);
  enabled = some " Yes";
  scheduled_slug = some "mor-logistics";
  connector_slug = some "mor-logistics";
  drawn_run_id = "first";
  started_at = 1;
  observed_at = 2;
  completed_at = 3;
  failed_at = 4;
}

-- Half an hour later.
abbrev pub repeated : Trigger
repeated = record morning { timestamp = int (pos 1767598200); drawn_run_id = "second" }

abbrev pub grants_claims : ClaimRefusals
grants_claims = record {
  refuses_lookup = λ tables. false;
  refuses_claim = λ tables. false;
  refuses_verify = λ tables. false;
}

abbrev pub week : SlotWindow
week = record { slot = 490999; first_day = 739615; last_day = 739621 }
