-- ===== src/Dispatch/Normalize.antt =====
-- `_normalize_pages` and `_normalize_dispatch` of chief-of-staff/backend/app/connectors/torqueai_ingestion.py:
-- the fields of a record that are kept, within their bounds, and their fingerprint. Parameters are the
-- reader of decimals, their plain spelling `format(value, "f")`, and the digest of the JSON text of a list of
-- keys and values.
use Prim.Native.Char.{code}
use polaris_lab.Base.{
  ℕ, String, Bool, true, false, ◌&&◌, ◌||◌, Option, none, some, List, [], ◌∷◌, ltb, ◌==◌, str_eq,
  if◌then◌else◌,
}
use polaris_lab.Base.Int.{pos, negsuc}
use polaris_lab.Dispatch.Call.{
  Fault, ingestion_fault, Call, raised, returned, ◌>>=◌, ◌>>◌, raise_if,
}
use polaris_lab.Python.Value.{Value, null, int, float, text, Fields}
use polaris_lab.Python.Text.{strip, is_empty, str_int, text_length}
use polaris_lab.Python.Decimal.{Decimal, finite, infinite, nan, Reader}
use polaris_lab.Dispatch.Connector.{DispatchPage, get}

-- `_NormalizedDispatch`
pub record NormalizedDispatch : Type 0 where
  pub provider_load_number : String
  pub provider_order_number : String
  pub status : Option String
  pub order_date_text : Option String
  pub ship_date_text : Option String
  pub delivery_date_text : Option String
  pub customer_name : Option String
  pub dispatcher_name : Option String
  pub driver_name : Option String
  pub carrier_name : Option String
  pub truck_number : Option String
  pub trailer_number : Option String
  pub loaded_miles : Option Decimal
  pub source_fingerprint : String

abbrev pub ingestion_failure : String → Fault
ingestion_failure code = ingestion_fault code none

abbrev pub malformed : Fault
malformed = ingestion_failure "provider_contract_error"

-- `_optional_text`
unfoldable pub optional_text : Value → ℕ → Call (Option String)
optional_text null maximum_length = returned none
optional_text (text t) maximum_length = do
  let normalized = strip t
  raise_if (ltb maximum_length (text_length normalized)) malformed
  returned (some normalized)
optional_text _ maximum_length = raised malformed

-- The decimal is finite and not below zero.
abbrev pub bad_decimal : Decimal → Bool
bad_decimal (finite (pos m) k) = false
bad_decimal (finite (negsuc m) k) = true
bad_decimal (infinite negative) = true
bad_decimal nan = true

abbrev pub checked_decimal : Option Decimal → Call (Option Decimal)
checked_decimal none = raised malformed
checked_decimal (some d) = if bad_decimal d then raised malformed else returned (some d)

has_point : String → Bool
has_point String.[] = false
has_point (String.◌∷◌ c s) = code c == 46 || has_point s

-- `s.rstrip(c)` for the character with code `k`
rstrip_code : ℕ → String → String
rstrip_code k String.[] = ""
rstrip_code k (String.◌∷◌ c s) =
    let rest = rstrip_code k s in if code c == k && is_empty rest then "" else String.◌∷◌ c rest

-- `_canonical_value` of a decimal, by its plain spelling
unfoldable pub canonical_text : String → String
unfolding has_point rstrip_code
canonical_text spelling =
    let text = if has_point spelling then rstrip_code 46 (rstrip_code 48 spelling) else spelling in
    if is_empty text then "0" else text

abbrev pub load_number_of : Value → Call String
load_number_of (int n) = returned (str_int n)
load_number_of _ = raised malformed

abbrev pub order_number_of : Value → Call String
order_number_of (text t) =
    if is_empty (strip t) || ltb 255 (text_length (strip t))
    then raised malformed
    else returned (strip t)
order_number_of _ = raised malformed

abbrev pub same_identity : NormalizedDispatch → NormalizedDispatch → Bool
same_identity i j =
    str_eq i.provider_load_number j.provider_load_number
    && str_eq i.provider_order_number j.provider_order_number

-- `item.identity in seen`
abbrev pub identity_seen : NormalizedDispatch → List NormalizedDispatch → Bool
identity_seen i [] = false
identity_seen i (j ∷ seen) = same_identity i j || identity_seen i seen

module _ (decimal : Reader) (plain : Decimal → String)
    (digest : List (String × Option String) → String) where
  -- `_optional_decimal`
  unfoldable pub optional_decimal : Value → Call (Option Decimal)
  optional_decimal null = returned none
  optional_decimal (int n) = checked_decimal (decimal (str_int n))
  optional_decimal (float t) = checked_decimal (decimal t)
  optional_decimal _ = raised malformed

  abbrev canonical_miles : Option Decimal → Option String
  canonical_miles none = none
  canonical_miles (some d) = some (canonical_text (plain d))

  -- The fields in the order in which they are digested.
  abbrev pub fingerprint_of : NormalizedDispatch → String
  fingerprint_of d = digest (
      ("provider_load_number", some d.provider_load_number)
      ∷ ("provider_order_number", some d.provider_order_number)
      ∷ ("status", d.status)
      ∷ ("order_date_text", d.order_date_text)
      ∷ ("ship_date_text", d.ship_date_text)
      ∷ ("delivery_date_text", d.delivery_date_text)
      ∷ ("customer_name", d.customer_name)
      ∷ ("dispatcher_name", d.dispatcher_name)
      ∷ ("driver_name", d.driver_name)
      ∷ ("carrier_name", d.carrier_name)
      ∷ ("truck_number", d.truck_number)
      ∷ ("trailer_number", d.trailer_number)
      ∷ ("loaded_miles", canonical_miles d.loaded_miles)
      ∷ [])

  abbrev fingerprinted : NormalizedDispatch → NormalizedDispatch
  fingerprinted d = record d { source_fingerprint = fingerprint_of d }

  -- `_normalize_dispatch`
  unfoldable pub normalize_dispatch : Fields → Call NormalizedDispatch
  normalize_dispatch raw = do
    load_number ← load_number_of (get "loadNumber" raw)
    order_number ← order_number_of (get "orderNumber" raw)
    status ← optional_text (get "status" raw) 120
    order_date ← optional_text (get "orderDate" raw) 120
    ship_date ← optional_text (get "shipDate" raw) 120
    delivery_date ← optional_text (get "deliveryDate" raw) 120
    customer ← optional_text (get "customerName" raw) 255
    dispatcher ← optional_text (get "dispatcherName" raw) 255
    driver ← optional_text (get "driverName" raw) 255
    carrier ← optional_text (get "carrierName" raw) 255
    truck ← optional_text (get "truckNumber" raw) 120
    trailer ← optional_text (get "trailerNumber" raw) 120
    miles ← optional_decimal (get "loadedMiles" raw)
    returned (
        fingerprinted (record {
          provider_load_number = load_number;
          provider_order_number = order_number;
          status = status;
          order_date_text = order_date;
          ship_date_text = ship_date;
          delivery_date_text = delivery_date;
          customer_name = customer;
          dispatcher_name = dispatcher;
          driver_name = driver;
          carrier_name = carrier;
          truck_number = truck;
          trailer_number = trailer;
          loaded_miles = miles;
          source_fingerprint = "";
        }))

  -- The loop over the records of a page, with what the records before it gave, last first.
  unfoldable pub normalize_records :
      List Fields → List NormalizedDispatch → Call (List NormalizedDispatch)
  normalize_records [] seen = returned seen
  normalize_records (raw ∷ records) seen = do
    item ← normalize_dispatch raw
    raise_if (identity_seen item seen) (ingestion_failure "provider_duplicate_identity")
    normalize_records records (item ∷ seen)

  unfoldable pub normalize_each :
      List DispatchPage → List NormalizedDispatch → Call (List NormalizedDispatch)
  normalize_each [] seen = returned seen
  normalize_each (page ∷ pages) seen = do
    seen ← normalize_records page.data_items seen
    normalize_each pages seen

  abbrev pub reverse_onto :
      List NormalizedDispatch → List NormalizedDispatch → List NormalizedDispatch
  reverse_onto [] done = done
  reverse_onto (item ∷ items) done = reverse_onto items (item ∷ done)

  -- `_normalize_pages`
  unfoldable pub normalize_pages : List DispatchPage → Call (List NormalizedDispatch)
  normalize_pages pages = do items ← normalize_each pages []; returned (reverse_onto items [])
