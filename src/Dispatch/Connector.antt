-- ===== src/Dispatch/Connector.antt =====
-- chief-of-staff/backend/app/connectors/torqueai.py: one request for a page of dispatches, and the checks of
-- its answer. A date is its ordinal. Parameters are the HTTP client, `urllib.parse.urlsplit` and
-- `date.fromisoformat`.
use Prim.Native.String
use polaris_lab.Base.{
  ℕ, suc, ◌+◌, ◌-◌, ◌*◌, String, ◌||◌, not, Option, none, some, List, [], ◌∷◌, length, ltb, ◌==◌,
  str_eq, if◌then◌else◌,
}
use polaris_lab.Base.Int.{pos}
use polaris_lab.Dispatch.Call.{
  Fault, connector_fault, other_fault, Call, raised, returned, ◌>>=◌, ◌>>◌, raise_if,
}
use polaris_lab.Python.Value.{
  Value, int, text, list, object, Items, nil, cons, Fields, lookup, or_null,
}
use polaris_lab.Python.Text.{strip, is_empty}
use polaris_lab.Utilization.Http.{Sent, answered, timed_out, network_failed, crashed}
use polaris_lab.Dispatch.Request.{
  DispatchRequest, Settings, SplitUrl, connector_failure, origin_of, rstrip_slashes, setting,
  torqueai_max_limit, validate_request_bounds,
}

-- `TorqueAIDispatchPage`
pub record DispatchPage : Type 0 where
  pub data_items : List Fields
  pub total_count : ℕ
  pub page : ℕ
  pub items_per_page : ℕ
  pub date_from : ℕ
  pub date_to : ℕ

-- `_status_error`
unfoldable pub status_error : ℕ → Fault
status_error status =
    connector_fault
      (if status == 400
        then "provider_bad_request"
        else if status == 401
        then "authorization_required"
        else if status == 403
        then "permission_denied"
        else if status == 405
        then "method_not_allowed"
        else if status == 429
        then "rate_limited"
        else if status == 500
        then "provider_unavailable"
        else "provider_unexpected_status")
      (some status)

-- `_contract_error`
abbrev pub contract_failure : Fault
contract_failure = connector_failure "provider_contract_error"

abbrev pub required {ℓ} : {T : Type ℓ} → Option T → Call T
required none = raised contract_failure
required (some t) = returned t

-- `_non_negative_int`
abbrev pub non_negative_int : Value → Option ℕ
non_negative_int (int (pos n)) = some n
non_negative_int _ = none

-- `_positive_int`
abbrev pub positive_int : Value → Option ℕ
positive_int (int (pos (suc n))) = some (suc n)
positive_int _ = none

abbrev pub fields_of : Value → Option Fields
fields_of (object fields) = some fields
fields_of _ = none

abbrev objects_of : Items → Option (List Fields)
objects_of nil = some []
objects_of (cons v items) = elim (objects_of items) [
  | none ↦ none
  | some rest ↦ elim (fields_of v) [ none ↦ none | some fields ↦ some (fields ∷ rest) ]
]

abbrev pub listed_objects : Value → Option (List Fields)
listed_objects (list items) = objects_of items
listed_objects _ = none

abbrev pub get : String → Fields → Value
get key fields = or_null (lookup key fields)

module _ (parse_date : String → Option ℕ) where
  -- `_coerce_date` of a date in the answer
  abbrev pub date_of : Value → Option ℕ
  date_of (text t) = parse_date t
  date_of _ = none

  -- `_parse_dispatch_page`
  unfoldable pub parse_dispatch_page : Value → ℕ → ℕ → ℕ → ℕ → Call DispatchPage
  parse_dispatch_page payload request_from request_to requested_page requested_limit = do
    fields ← required (fields_of payload)
    records ← required (listed_objects (get "data" fields))
    total_count ← required (non_negative_int (get "totalCount" fields))
    response_page ← required (positive_int (get "page" fields))
    raise_if (not (response_page == requested_page)) contract_failure
    items_per_page ← required (positive_int (get "itemsPerPage" fields))
    raise_if (ltb requested_limit items_per_page || ltb torqueai_max_limit items_per_page)
        contract_failure
    raise_if (ltb items_per_page (length records)) contract_failure
    date_range ← required (fields_of (get "dateRange" fields))
    response_from ← required (date_of (get "from" date_range))
    response_to ← required (date_of (get "to" date_range))
    raise_if (not (response_from == request_from) || not (response_to == request_to))
        contract_failure
    let consumed_before = (requested_page - 1) * items_per_page
    raise_if (ltb total_count consumed_before || ltb total_count (consumed_before + length records))
        contract_failure
    returned (record {
      data_items = records;
      total_count = total_count;
      page = response_page;
      items_per_page = items_per_page;
      date_from = response_from;
      date_to = response_to;
    })

  module _ (split_url : String → Option SplitUrl) (client : ℕ → DispatchRequest → Sent) where
    -- `_validated_configuration`
    unfoldable pub validated_configuration : Settings → String → Call (String × String)
    validated_configuration settings organization_slug = do
      let configured_slug = setting settings.scope_slug
      raise_if (is_empty configured_slug) (connector_failure "organization_not_configured")
      raise_if
          (is_empty (strip organization_slug) || not (str_eq organization_slug configured_slug))
          (connector_failure "organization_scope_mismatch")
      let token = setting settings.token
      raise_if (is_empty token) (connector_failure "token_missing")
      let base_url = rstrip_slashes (setting settings.base_url)
      raise_if (is_empty base_url) (connector_failure "base_url_missing")
      origin ← origin_of (split_url base_url)
      returned (origin, token)

    abbrev pub dispatch_request : Settings → String → ℕ → ℕ → ℕ → ℕ → Call DispatchRequest
    dispatch_request settings organization_slug date_from date_to page limit = do
      validate_request_bounds date_from date_to page limit
      configuration ← validated_configuration settings organization_slug
      returned (record {
        url = String.◌++◌ configuration.0 "/api/external/dispatches";
        date_from = date_from;
        date_to = date_to;
        page = page;
        limit = limit;
        token = configuration.1;
      })

    abbrev pub dispatch_page_of : ℕ → ℕ → ℕ → ℕ → Sent → Call DispatchPage
    dispatch_page_of date_from date_to page limit timed_out =
        raised (connector_failure "provider_timeout")
    dispatch_page_of date_from date_to page limit network_failed =
        raised (connector_failure "network_failure")
    dispatch_page_of date_from date_to page limit crashed = raised other_fault
    dispatch_page_of date_from date_to page limit (answered response) = do
      raise_if (not (response.status_code == 200)) (status_error response.status_code)
      payload ← required response.json
      parse_dispatch_page payload date_from date_to page limit

    abbrev pub send_dispatch : ℕ → ℕ → ℕ → ℕ → ℕ → Call DispatchRequest → Call DispatchPage × ℕ
    send_dispatch sent date_from date_to page limit (raised e) = (raised e, sent)
    send_dispatch sent date_from date_to page limit (returned request) =
        (dispatch_page_of date_from date_to page limit (client sent request), sent + 1)

    -- `fetch_dispatches` after `sent` requests: its result and the number of requests sent then.
    unfoldable pub fetch_dispatches : Settings → String → ℕ → ℕ → ℕ → ℕ → ℕ → Call DispatchPage × ℕ
    fetch_dispatches settings organization_slug sent date_from date_to page limit =
        send_dispatch sent date_from date_to page limit
          (dispatch_request settings organization_slug date_from date_to page limit)
