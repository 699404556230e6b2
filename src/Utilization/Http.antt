-- ===== src/Utilization/Http.antt =====
-- One request to the provider: `request_vehicle_utilization_page` of
-- chief-of-staff/backend/app/connectors/motive_vehicle_utilization_pagination.py, with
-- `_contract_json_response` of motive_vehicle_utilization_contract.py and `_api_key` of motive.py in
-- the same folder. The network is a parameter: a client answers, times out or fails. Arguments that
-- are of no expected type are ruled out by the types, and a page number or size is a natural number.
pub mod Errors
use polaris_lab.Base.{
  ℕ, zero, suc, ◌+◌, String, Bool, true, false, ◌&&◌, ◌||◌, not, Option, none, some, List, [], ◌∷◌,
  ◌++◌, map, ltb, leb, ◌==◌, if◌then◌else◌, str_eq,
}
use polaris_lab.Base.Int.{pos}
use polaris_lab.Outcome.{
  Exc, connector_error, pagination_error, unexpected, Result, ok, err, ◌>>=◌, ◌>>◌, raise_if,
}
use Prim.Native.String
use polaris_lab.Python.Value.{Value, list, object}
use polaris_lab.Python.Text.{str_int, is_empty}
use polaris_lab.Utilization.Rollup.{Date}
use polaris_lab.Utilization.UnitPolicy.{
  UnitRequestMode, unit_request_mode_header_value, writer_metric_units_header_value,
}

abbrev pub max_provider_page_size : ℕ
max_provider_page_size = 100

-- A query parameter's value: a text, a date in ISO form or a number in digits.
pub data Param : Type 0 where
  text : String → Param
  day : Date → Param
  number : ℕ → Param

-- What is sent to the utilization endpoint.
pub record Request : Type 0 where
  pub params : List (String × Param)
  pub api_key : String
  pub metric_units_header : Option String

pub record Response : Type 0 where
  pub status_code : ℕ
  pub has_content : Bool
  -- `response.json()`; `none` stands for `ValueError`
  pub json : Option Value

-- `httpx.TimeoutException`, any other `httpx.HTTPError`, and any exception besides those.
pub data Sent : Type 0 where
  answered : Response → Sent
  timed_out network_failed crashed : Sent

-- The number counts the requests that were sent before, so that answers may change over time.
abbrev pub HttpClient : Type 0
HttpClient = ℕ → Request → Sent

-- The arguments of a read; `per_page` is the page size that is asked for.
pub record Query : Type 0 where
  pub organization_id : String
  pub organization_slug : String
  pub provider_vehicle_ids : List String
  pub start_date : Date
  pub end_date : Date
  pub per_page : ℕ
  pub metric_units : Bool
  pub unit_request_mode : Option UnitRequestMode

contract_error : String → Result Value
contract_error code = err (connector_error code)

decoded_shape : Option Value → Result Value
unfolding contract_error
decoded_shape (some (object fields)) = ok (object fields)
decoded_shape (some (list items)) = ok (list items)
decoded_shape _ = contract_error "provider_contract_error"

-- `_contract_json_response`
unfoldable pub contract_json_response : Response → Result Value
unfolding contract_error decoded_shape
contract_json_response r =
    if r.status_code == 400
    then contract_error "http_400"
    else if r.status_code == 429
    then contract_error "rate_limited"
    else if r.status_code == 401 || r.status_code == 403
    then contract_error
        (if r.status_code == 403 then "permission_denied" else "authorization_required")
    else if r.status_code == 500
        || r.status_code == 502
        || r.status_code == 503
        || r.status_code == 504
    then contract_error "provider_unavailable"
    else if leb 400 r.status_code
    then contract_error (String.◌++◌ "http_" (str_int (pos r.status_code)))
    else if not r.has_content
    then contract_error "provider_contract_error"
    else decoded_shape r.json

-- `_api_key`; `none` stands for an unset variable.
unfoldable pub required_api_key : Option String → Result String
required_api_key none = err (connector_error "api_key_missing")
required_api_key (some key) =
    if is_empty key then err (connector_error "api_key_missing") else ok key

-- `[id for id in ids if id]`
unfoldable pub selected_ids : List String → List String
selected_ids [] = []
selected_ids (id ∷ ids) = if is_empty id then selected_ids ids else id ∷ selected_ids ids

is_nil : List String → Bool
is_nil [] = true
is_nil (_ ∷ _) = false

abbrev header_value : Query → Option String
header_value q = elim q.unit_request_mode [
  | some mode ↦ unit_request_mode_header_value mode
  | none ↦ some (writer_metric_units_header_value q.metric_units)
]

abbrev no_mode : Option UnitRequestMode → Bool
no_mode none = true
no_mode (some _) = false

abbrev invalid_request : Exc
invalid_request = connector_error "invalid_pagination_request"

abbrev pub invalid_per_page : ℕ → Bool
invalid_per_page per_page = ltb per_page 1 || ltb max_provider_page_size per_page

abbrev vehicle_params : List String → List (String × Param)
vehicle_params ids = map (λ id. ("vehicle_ids[]", text id)) ids

-- The checks of the arguments, and what is then sent for page `page_no`.
unfoldable pub page_request : Option String → Query → ℕ → Result Request
unfolding is_nil
page_request api_key q page_no = do
  let ids = selected_ids q.provider_vehicle_ids
  raise_if (is_nil ids) (connector_error "provider_contract_error")
  raise_if (ltb page_no 1) invalid_request
  raise_if (invalid_per_page q.per_page) invalid_request
  raise_if (no_mode q.unit_request_mode && not q.metric_units) invalid_request
  key ← required_api_key api_key
  ok (record {
    params =
        vehicle_params ids
        ++ ("start_date", day q.start_date)
          ∷ ("end_date", day q.end_date)
          ∷ ("per_page", number q.per_page)
          ∷ ("page_no", number page_no)
          ∷ [];
    api_key = key;
    metric_units_header = header_value q;
  })

unfoldable pub payload_of : Sent → Result Value
payload_of (answered response) = contract_json_response response
payload_of timed_out = err (connector_error "provider_timeout")
payload_of network_failed = err (connector_error "network_failure")
payload_of crashed = err unexpected

abbrev send : HttpClient → ℕ → Result Request → Result Value × ℕ
send client sent (ok request) = (payload_of (client sent request), sent + 1)
send client sent (err e) = (err e, sent)

-- `request_vehicle_utilization_page`: at most one request, and the count of those sent.
unfoldable pub request_page : HttpClient → Option String → Query → ℕ → ℕ → Result Value × ℕ
unfolding page_request payload_of
request_page client api_key q page_no sent = send client sent (page_request api_key q page_no)
