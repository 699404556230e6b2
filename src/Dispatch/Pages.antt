-- ===== src/Dispatch/Pages.antt =====
-- What the pages are that `fetch_dispatches` of chief-of-staff/backend/app/connectors/torqueai.py returns.
use polaris_lab.Base.{
  not_apart, ltb-false, ℕ, zero, suc, ◌+◌, ◌-◌, ◌*◌, ◌≤◌, String, false, ◌||◌, not, Option, length,
  ltb, ◌==◌, ◌≡◌, arith,
}
use polaris_lab.Base.Int.{pos, negsuc}
use polaris_lab.Python.Value.{Value, null, bool, int, float, text, list, object}
use polaris_lab.Utilization.Http.{Sent, answered, timed_out, network_failed, crashed}
use polaris_lab.Dispatch.Call.{
  >>=-Gives, Call, raised, returned, Returns, failed, gave, raise_if-Returns, >>=-Returns,
}
use polaris_lab.Dispatch.Request.{torqueai_max_limit, Settings, SplitUrl, DispatchRequest}
use polaris_lab.Dispatch.Connector.{
  DispatchPage, status_error, contract_failure, required, non_negative_int, positive_int, fields_of,
  listed_objects, get, date_of, parse_dispatch_page, dispatch_page_of, dispatch_request,
  send_dispatch, fetch_dispatches,
}
use polaris_lab.Dispatch.Fetches.{IsSingle}

-- A page that answers a request: its number, its window, a size within the limit, no more records than
-- that, and none beyond the total.
pub record IsPage (date_from date_to page limit : ℕ) (p : DispatchPage) : Type 0 where
  pub numbered : p.page ≡ page
  pub starts : p.date_from ≡ date_from
  pub ends : p.date_to ≡ date_to
  pub sized : 1 ≤ p.items_per_page
  pub limited : p.items_per_page ≤ limit
  pub filled : length p.data_items ≤ p.items_per_page
  pub inside : (page - 1) * p.items_per_page + length p.data_items ≤ p.total_count

positive_int-IsPositive : (v : Value) → Returns (λ n. 1 ≤ n) (required (positive_int v))
positive_int-IsPositive (int (pos (suc m))) = gave (omega arith)
positive_int-IsPositive (int (pos zero)) = failed
positive_int-IsPositive (int (negsuc m)) = failed
positive_int-IsPositive null = failed
positive_int-IsPositive (bool b) = failed
positive_int-IsPositive (float t) = failed
positive_int-IsPositive (text t) = failed
positive_int-IsPositive (list t) = failed
positive_int-IsPositive (object t) = failed

dates_lem : (a b c d : ℕ) → (not (a == b) || not (c == d)) ≡ false → (a ≡ b) × (c ≡ d)
dates_lem a b c d h = ground arith

limited_lem : (a b c : ℕ) → (ltb a c || ltb b c) ≡ false → c ≤ a
limited_lem a b c h = ground arith

inside_lem : (t c n : ℕ) → (ltb t c || ltb t (c + n)) ≡ false → c + n ≤ t
inside_lem t c n h = ground arith

module _ (parse_date : String → Option ℕ) where
  parse_dispatch_page-IsPage :
      (payload : Value) (date_from date_to page limit : ℕ)
      → Returns
          (IsPage date_from date_to page limit)
          (parse_dispatch_page parse_date payload date_from date_to page limit)
  unfolding parse_dispatch_page
  parse_dispatch_page-IsPage payload date_from date_to page limit =
      let P = IsPage date_from date_to page limit in
      >>=-Returns P (required (fields_of payload)) _ λ fields h1.
        >>=-Returns P (required (listed_objects (get "data" fields))) _ λ records h2.
          >>=-Returns P (required (non_negative_int (get "totalCount" fields))) _ λ total h3.
            >>=-Returns P (required (positive_int (get "page" fields))) _ λ number h4.
              raise_if-Returns P (not (number == page)) contract_failure _ λ same.
                >>=-Gives P _ (positive_int-IsPositive (get "itemsPerPage" fields)) λ size large.
                  raise_if-Returns P (ltb limit size || ltb torqueai_max_limit size)
                    contract_failure _
                    λ small.
                      raise_if-Returns P (ltb size (length records)) contract_failure _ λ few.
                        >>=-Returns P (required (fields_of (get "dateRange" fields))) _ λ range h6.
                          >>=-Returns P (required (date_of parse_date (get "from" range))) _ λ a h7.
                            >>=-Returns P (required (date_of parse_date (get "to" range))) _ λ b h8.
                              raise_if-Returns P (not (a == date_from) || not (b == date_to))
                                contract_failure _
                                λ dates.
                                  raise_if-Returns P
                                    (ltb total ((page - 1) * size)
                                      || ltb total ((page - 1) * size + length records))
                                    contract_failure _
                                    λ counted. gave (record {
                                      numbered = not_apart number page same;
                                      starts = (dates_lem a date_from b date_to dates).0;
                                      ends = (dates_lem a date_from b date_to dates).1;
                                      sized = large;
                                      limited = limited_lem limit torqueai_max_limit size small;
                                      filled = ltb-false size (length records) few;
                                      inside =
                                          inside_lem total ((page - 1) * size) (length records)
                                            counted;
                                    })

  module _ (split_url : String → Option SplitUrl) (client : ℕ → DispatchRequest → Sent) where
    dispatch_page_of-IsPage :
        (date_from date_to page limit : ℕ) (answer : Sent)
        → Returns
            (IsPage date_from date_to page limit)
            (dispatch_page_of parse_date split_url client date_from date_to page limit answer)
    dispatch_page_of-IsPage date_from date_to page limit timed_out = failed
    dispatch_page_of-IsPage date_from date_to page limit network_failed = failed
    dispatch_page_of-IsPage date_from date_to page limit crashed = failed
    dispatch_page_of-IsPage date_from date_to page limit (answered response) =
        let P = IsPage date_from date_to page limit in
        raise_if-Returns P (not (response.status_code == 200)) (status_error response.status_code) _
          λ fine.
            >>=-Returns P (required response.json) _
              λ payload h. parse_dispatch_page-IsPage payload date_from date_to page limit

    -- The result of a call after `sent` requests, and how many there are then.
    abbrev pub IsAnswer : ℕ → ℕ → ℕ → ℕ → ℕ → Call DispatchPage × ℕ → Type 0
    IsAnswer sent date_from date_to page limit result =
        Returns (IsPage date_from date_to page limit) result.0 × (result.1 ≤ sent + 1)

    send_dispatch-IsAnswer :
        (sent date_from date_to page limit : ℕ) (request : Call DispatchRequest)
        → IsAnswer sent date_from date_to page limit
            (send_dispatch parse_date split_url client sent date_from date_to page limit request)
    send_dispatch-IsAnswer sent date_from date_to page limit (raised e) = (failed, omega arith)
    send_dispatch-IsAnswer sent date_from date_to page limit (returned request) =
        (dispatch_page_of-IsPage date_from date_to page limit (client sent request), omega arith)

    -- A call of the connector sends at most one request, and a page that it returns answers the
    -- arguments: it has the number and the window that were asked for, its size is at least one and
    -- within the limit, it has no more records than its size, and its place among the pages leaves none
    -- of them beyond the total.
    pub fetch-IsAnswer :
        (settings : Settings) (organization_slug : String) (sent date_from date_to page limit : ℕ)
        → IsAnswer sent date_from date_to page limit (
            fetch_dispatches parse_date split_url client settings organization_slug sent date_from
              date_to page limit)
    unfolding fetch_dispatches
    fetch-IsAnswer settings organization_slug sent date_from date_to page limit =
        send_dispatch-IsAnswer sent date_from date_to page limit (
          dispatch_request parse_date split_url client settings organization_slug date_from date_to
            page limit)

    -- The connector may stand where an ingestion wants one.
    pub fetch-IsSingle :
        (settings : Settings) (organization_slug : String)
        → IsSingle (fetch_dispatches parse_date split_url client settings organization_slug)
    fetch-IsSingle settings organization_slug sent date_from date_to page limit =
        (fetch-IsAnswer settings organization_slug sent date_from date_to page limit).1
