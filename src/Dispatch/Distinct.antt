-- ===== src/Dispatch/Distinct.antt =====
-- What `_normalize_pages` of chief-of-staff/backend/app/connectors/torqueai_ingestion.py lets through.
use polaris_lab.Base.{neither, ◌≤◌, String, false, Option, List, [], ◌∷◌, All, ◌≡◌, refl, ◌∙◌}
use polaris_lab.Python.Value.{Value, null, bool, int, float, text, list, object, Fields}
use polaris_lab.Python.Decimal.{Decimal, Reader}
use polaris_lab.Python.Text.{is_empty, str_int, text_length}
use polaris_lab.Dispatch.Call.{>>=-Gives, Returns, failed, gave, raise_if-Returns, >>=-Returns}
use polaris_lab.Dispatch.Connector.{DispatchPage, get}
use polaris_lab.Dispatch.Normalize.{
  NormalizedDispatch, ingestion_failure, load_number_of, same_identity, identity_seen,
  optional_decimal, fingerprint_of, normalize_dispatch, normalize_records, normalize_each,
  reverse_onto, normalize_pages,
}
use polaris_lab.Dispatch.Fields.{
  IsWithin, IsMiles, checked_decimal-IsMiles, order_number_of-IsOrder, text_fits, same_identity_sym,
  both_unseen,
}

module _ (decimal : Reader) (plain : Decimal → String)
    (digest : List (String × Option String) → String) where
  -- A record whose texts besides the load number are within the bounds of their columns, with its
  -- fingerprint.
  pub record IsNormal (d : NormalizedDispatch) : Type 0 where
    pub order_given : is_empty d.provider_order_number ≡ false
    pub order_number : text_length d.provider_order_number ≤ 255
    pub status : IsWithin 120 d.status
    pub order_date : IsWithin 120 d.order_date_text
    pub ship_date : IsWithin 120 d.ship_date_text
    pub delivery_date : IsWithin 120 d.delivery_date_text
    pub customer : IsWithin 255 d.customer_name
    pub dispatcher : IsWithin 255 d.dispatcher_name
    pub driver : IsWithin 255 d.driver_name
    pub carrier : IsWithin 255 d.carrier_name
    pub truck : IsWithin 120 d.truck_number
    pub trailer : IsWithin 120 d.trailer_number
    pub miles : IsMiles d.loaded_miles
    pub fingerprint : d.source_fingerprint ≡ fingerprint_of decimal plain digest d

  -- No two records have the same load and order.
  abbrev pub AreDistinct : List NormalizedDispatch → Type 0
  AreDistinct [] = Unit
  AreDistinct (d ∷ items) = (identity_seen d items ≡ false) × AreDistinct items

  optional_decimal-IsMiles : (v : Value) → Returns IsMiles (optional_decimal decimal plain digest v)
  unfolding optional_decimal
  optional_decimal-IsMiles null = gave tt
  optional_decimal-IsMiles (int n) = checked_decimal-IsMiles (decimal (str_int n))
  optional_decimal-IsMiles (float t) = checked_decimal-IsMiles (decimal t)
  optional_decimal-IsMiles (text t) = failed
  optional_decimal-IsMiles (bool b) = failed
  optional_decimal-IsMiles (list t) = failed
  optional_decimal-IsMiles (object t) = failed

  normalize_dispatch-IsNormal :
      (raw : Fields) → Returns IsNormal (normalize_dispatch decimal plain digest raw)
  unfolding normalize_dispatch
  normalize_dispatch-IsNormal raw =
      >>=-Returns IsNormal (load_number_of (get "loadNumber" raw)) _ λ load known.
        >>=-Gives IsNormal _ (order_number_of-IsOrder (get "orderNumber" raw)) λ number order.
          >>=-Gives IsNormal _ (text_fits "status" raw 120) λ a ha.
            >>=-Gives IsNormal _ (text_fits "orderDate" raw 120) λ b hb.
              >>=-Gives IsNormal _ (text_fits "shipDate" raw 120) λ c hc.
                >>=-Gives IsNormal _ (text_fits "deliveryDate" raw 120) λ d hd.
                  >>=-Gives IsNormal _ (text_fits "customerName" raw 255) λ e he.
                    >>=-Gives IsNormal _ (text_fits "dispatcherName" raw 255) λ f hf.
                      >>=-Gives IsNormal _ (text_fits "driverName" raw 255) λ g hg.
                        >>=-Gives IsNormal _ (text_fits "carrierName" raw 255) λ i hi.
                          >>=-Gives IsNormal _ (text_fits "truckNumber" raw 120) λ j hj.
                            >>=-Gives IsNormal _ (text_fits "trailerNumber" raw 120) λ k hk.
                              >>=-Gives IsNormal _
                                (optional_decimal-IsMiles (get "loadedMiles" raw))
                                λ m hm. gave (record {
                                  order_given = order.0;
                                  order_number = order.1;
                                  status = ha;
                                  order_date = hb;
                                  ship_date = hc;
                                  delivery_date = hd;
                                  customer = he;
                                  dispatcher = hf;
                                  driver = hg;
                                  carrier = hi;
                                  truck = hj;
                                  trailer = hk;
                                  miles = hm;
                                  fingerprint = refl;
                                })

  -- Records that are normal and distinct.
  abbrev pub AreNormal : List NormalizedDispatch → Type 0
  AreNormal items = All IsNormal items × AreDistinct items

  normalize_records-AreNormal :
      (records : List Fields) (seen : List NormalizedDispatch)
      → AreNormal seen
      → Returns AreNormal (normalize_records decimal plain digest records seen)
  unfolding normalize_records
  normalize_records-AreNormal [] seen h = gave h
  normalize_records-AreNormal (raw ∷ records) seen h =
      >>=-Gives AreNormal _ (normalize_dispatch-IsNormal raw) λ item normal.
        raise_if-Returns AreNormal (identity_seen item seen)
          (ingestion_failure "provider_duplicate_identity") _
          λ new. normalize_records-AreNormal records (item ∷ seen) ((normal, h.0), (new, h.1))

  normalize_each-AreNormal :
      (pages : List DispatchPage) (seen : List NormalizedDispatch)
      → AreNormal seen
      → Returns AreNormal (normalize_each decimal plain digest pages seen)
  unfolding normalize_each
  normalize_each-AreNormal [] seen h = gave h
  normalize_each-AreNormal (page ∷ pages) seen h =
      >>=-Gives AreNormal _ (normalize_records-AreNormal page.data_items seen h)
        λ more normal. normalize_each-AreNormal pages more normal

  All-unseen :
      (d : NormalizedDispatch) (items done : List NormalizedDispatch)
      → identity_seen d items ≡ false
      → All (λ e. identity_seen e done ≡ false) items
      → All (λ e. identity_seen e (d ∷ done) ≡ false) items
  All-unseen d [] done h k = tt
  All-unseen d (e ∷ items) done h k =
      let (apart, rest) = neither (same_identity d e) (identity_seen d items) h in
      (
        both_unseen (same_identity e d) (identity_seen e done) (same_identity_sym e d ∙ apart) k.0,
        All-unseen d items done rest k.1,
      )

  reverse_onto-AreNormal :
      (items done : List NormalizedDispatch)
      → AreNormal items
      → AreNormal done
      → All (λ e. identity_seen e done ≡ false) items
      → AreNormal (reverse_onto decimal plain digest items done)
  reverse_onto-AreNormal [] done h k apart = k
  reverse_onto-AreNormal (d ∷ items) done h k apart =
      reverse_onto-AreNormal items (d ∷ done) (h.0.1, h.1.1) ((h.0.0, k.0), (apart.0, k.1))
        (All-unseen d items done h.1.0 apart.1)

  All-trivial : (items : List NormalizedDispatch) → All (λ e. false ≡ false) items
  All-trivial [] = tt
  All-trivial (d ∷ items) = (refl, All-trivial items)

  -- The records that are let through are normal: each has an order number, which is like its optional
  -- texts within the bound of its column, while nothing bounds the load number; its miles are finite and
  -- not negative, and its fingerprint is that of its other fields; and no two of them have the same load
  -- and order.
  pub normalize_pages-AreNormal :
      (pages : List DispatchPage) → Returns AreNormal (normalize_pages decimal plain digest pages)
  unfolding normalize_pages
  normalize_pages-AreNormal pages =
      >>=-Gives AreNormal _ (normalize_each-AreNormal pages [] (tt, tt))
        λ items normal. gave (reverse_onto-AreNormal items [] normal (tt, tt) (All-trivial items))
