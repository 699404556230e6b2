-- ===== src/Utilization/Http/Errors.antt =====
-- What one request can raise, and how many requests it sends.
use polaris_lab.Base.{ℕ, suc, ◌+◌, ◌≤◌, String, ◌≡◌, refl, Option, none, some, arith}
use polaris_lab.Outcome.{Exc, connector_error, pagination_error, unexpected, Result, ok, err}
use polaris_lab.Python.Value.{Value, null, list, object}
use polaris_lab.Utilization.Http.{
  Request, Response, Sent, answered, timed_out, network_failed, crashed, HttpClient, Query,
  decoded_shape, contract_json_response, required_api_key, page_request, payload_of, send,
  request_page,
}

abbrev ConnectorFails {ℓ} : {A : Type ℓ} → Result A → Type 0
ConnectorFails (ok a) = Unit
ConnectorFails (err e) = (code : String) × (e ≡ connector_error code)

decoded_shape-ConnectorFails : (v : Option Value) → ConnectorFails (decoded_shape v)
unfolding decoded_shape
decoded_shape-ConnectorFails (some (object fields)) = tt
decoded_shape-ConnectorFails (some (list items)) = tt
decoded_shape-ConnectorFails none = ("provider_contract_error", refl)
decoded_shape-ConnectorFails (some null) = ("provider_contract_error", refl)
decoded_shape-ConnectorFails (some _) = ("provider_contract_error", refl)

contract_json_response-ConnectorFails : (r : Response) → ConnectorFails (contract_json_response r)
unfolding contract_json_response
contract_json_response-ConnectorFails r = ground (arith, decoded_shape-ConnectorFails r.json)

page_request-ConnectorFails :
    (key : Option String) (q : Query) (page_no : ℕ) → ConnectorFails (page_request key q page_no)
unfolding page_request required_api_key
page_request-ConnectorFails none q page_no = ground arith
page_request-ConnectorFails (some key) q page_no = ground arith

-- The exceptions of a read: those that the modules define for it, and what the client itself raises.
abbrev pub IsReadError : HttpClient → Exc → Type 0
IsReadError client (connector_error code) = Unit
IsReadError client (pagination_error code) = Unit
IsReadError client unexpected = (n : ℕ) × (r : Request) × (client n r ≡ crashed)
IsReadError client _ = ⊥

-- A payload took one request, and a failure took at most one.
abbrev pub Requests : HttpClient → ℕ → Result Value × ℕ → Type 0
Requests client sent (ok payload, sent') = sent' ≡ suc sent
Requests client sent (err e, sent') = IsReadError client e × (sent' ≤ suc sent)

module _ (client : HttpClient) where
  answer-Requests :
      (sent : ℕ) (r : Request) (a : Sent)
      → client sent r ≡ a
      → Requests client sent (payload_of a, sent + 1)
  unfolding payload_of
  answer-Requests sent r (answered x) h = ground (arith, contract_json_response-ConnectorFails x)
  answer-Requests sent r timed_out h = (tt, omega arith)
  answer-Requests sent r network_failed h = (tt, omega arith)
  answer-Requests sent r crashed h = ((sent, r, h), omega arith)

  send-Requests :
      (sent : ℕ) (r : Result Request) → ConnectorFails r → Requests client sent (send client sent r)
  send-Requests sent (ok r) h = answer-Requests sent r (client sent r) refl
  send-Requests sent (err e) (code, h) = ground arith

  pub request_page-Requests :
      (key : Option String) (q : Query) (page_no sent : ℕ)
      → Requests client sent (request_page client key q page_no sent)
  unfolding request_page
  request_page-Requests key q page_no sent =
      send-Requests sent (page_request key q page_no) (page_request-ConnectorFails key q page_no)
