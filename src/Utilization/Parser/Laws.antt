-- ===== src/Utilization/Parser/Laws.antt =====
-- What a page that parses gives, and what makes it fail.
use polaris_lab.Base.{String, ◌≡◌, refl, true, false, Option, none, some, arith, All}
use polaris_lab.Outcome.{parse_error, Result, ok, err}
use polaris_lab.Python.Value.{
  Value, null, bool, int, float, text, list, object, Items, nil, cons, Fields, lookup, or_null,
}
use polaris_lab.Python.Text.{strip, str_int, is_empty}
use polaris_lab.Python.Text.Strip.{strip_idem}
use polaris_lab.Python.Decimal.{Decimal, Reader, is_finite}
use polaris_lab.Utilization.Rollup.{
  Metrics, RequestContext, Rollup, parser_version_v1, vehicle_utilization_endpoint,
}
use polaris_lab.Utilization.Parser.{
  vehicle_id_of_text, provider_vehicle_id, finite_only, decimal_metric, parse_metrics,
  parse_vehicle, parse_wrapped, parse_rollup, parse_items, parse_container,
  parse_vehicle_utilization_rollups,
}

-- A rule for what a call returns, and every exception of the call is a parse error.
abbrev pub Parses {ℓ} : {A : Type ℓ} → (A → Type 0) → Result A → Type 0
Parses P (ok a) = P a
Parses P (err e) = (code : String) × (e ≡ parse_error code)

-- An identity is no empty text, and has no space at its ends.
abbrev IsIdentity : String → Type 0
IsIdentity id = (is_empty id ≡ false) × (strip id ≡ id)

abbrev IsFinite : Option Decimal → Type 0
IsFinite none = Unit
IsFinite (some d) = is_finite d ≡ true

pub record AreFinite (m : Metrics) : Type 0 where
  pub utilization_percent : IsFinite m.utilization_percent
  pub idle_time : IsFinite m.idle_time
  pub driving_time : IsFinite m.driving_time
  pub idle_fuel : IsFinite m.idle_fuel
  pub driving_fuel : IsFinite m.driving_fuel

vehicle_id_of_text-IsIdentity : (s : String) → Parses IsIdentity (vehicle_id_of_text s)
unfolding vehicle_id_of_text
vehicle_id_of_text-IsIdentity s = ground (arith, strip_idem s)

provider_vehicle_id-IsIdentity : (v : Value) → Parses IsIdentity (provider_vehicle_id v)
unfolding provider_vehicle_id
provider_vehicle_id-IsIdentity null = ("missing_vehicle_id", refl)
provider_vehicle_id-IsIdentity (bool b) = ("missing_vehicle_id", refl)
provider_vehicle_id-IsIdentity (object fields) = ("invalid_vehicle_id", refl)
provider_vehicle_id-IsIdentity (list items) = ("invalid_vehicle_id", refl)
provider_vehicle_id-IsIdentity (text s) = vehicle_id_of_text-IsIdentity s
provider_vehicle_id-IsIdentity (int n) = vehicle_id_of_text-IsIdentity (str_int n)
provider_vehicle_id-IsIdentity (float s) = vehicle_id_of_text-IsIdentity s

module _ (decimal : Reader) where
  finite_only-IsFinite : (d : Option Decimal) → Parses IsFinite (finite_only decimal d)
  unfolding finite_only
  finite_only-IsFinite none = ("invalid_metric_type", refl)
  finite_only-IsFinite (some d) = ground arith

  decimal_metric-IsFinite : (v : Value) → Parses IsFinite (decimal_metric decimal v)
  unfolding decimal_metric
  decimal_metric-IsFinite null = tt
  decimal_metric-IsFinite (bool b) = ("invalid_metric_type", refl)
  decimal_metric-IsFinite (object fields) = ("invalid_metric_type", refl)
  decimal_metric-IsFinite (list items) = ("invalid_metric_type", refl)
  decimal_metric-IsFinite (text s) = ground (arith, finite_only-IsFinite (decimal (strip s)))
  decimal_metric-IsFinite (int n) = finite_only-IsFinite (decimal (str_int n))
  decimal_metric-IsFinite (float s) = finite_only-IsFinite (decimal s)

  parse_metrics-AreFinite : (w : Fields) → Parses AreFinite (parse_metrics decimal w)
  unfolding parse_metrics
  parse_metrics-AreFinite w = ground (
    arith,
    decimal_metric-IsFinite (or_null (lookup "utilization" w)),
    decimal_metric-IsFinite (or_null (lookup "idle_time" w)),
    decimal_metric-IsFinite (or_null (lookup "driving_time" w)),
    decimal_metric-IsFinite (or_null (lookup "idle_fuel" w)),
    decimal_metric-IsFinite (or_null (lookup "driving_fuel" w)),
  )

  module _ (organization_id organization_slug : String) (context : RequestContext) where
    -- A rollup of this parser carries the caller's tenant and window, the certified provenance, an
    -- identity in its final form and finite metrics.
    pub record IsParsed (r : Rollup) : Type 0 where
      pub tenant : r.organization_id ≡ organization_id
      pub slug : r.organization_slug ≡ organization_slug
      pub start : r.request_start_date ≡ context.request_start_date
      pub stop : r.request_end_date ≡ context.request_end_date
      pub endpoint : r.source_endpoint ≡ vehicle_utilization_endpoint
      pub version : r.parser_version ≡ parser_version_v1
      pub identity : IsIdentity r.provider_vehicle_id
      pub metrics : AreFinite r.metrics

    parse_vehicle-IsParsed :
        (w : Fields) (v : Value)
        → Parses IsParsed (parse_vehicle decimal organization_id organization_slug context w v)
    unfolding parse_vehicle
    parse_vehicle-IsParsed w (object vehicle) = ground (
      arith,
      provider_vehicle_id-IsIdentity (or_null (lookup "id" vehicle)),
      parse_metrics-AreFinite w,
    )
    parse_vehicle-IsParsed w null = ("missing_vehicle", refl)
    parse_vehicle-IsParsed w _ = ("missing_vehicle", refl)

    parse_wrapped-IsParsed :
        (v : Value)
        → Parses IsParsed (parse_wrapped decimal organization_id organization_slug context v)
    unfolding parse_wrapped
    parse_wrapped-IsParsed null = ("missing_wrapper", refl)
    parse_wrapped-IsParsed (object w) = parse_vehicle-IsParsed w (or_null (lookup "vehicle" w))
    parse_wrapped-IsParsed _ = ("invalid_wrapper", refl)

    parse_rollup-IsParsed :
        (v : Value)
        → Parses IsParsed (parse_rollup decimal organization_id organization_slug context v)
    unfolding parse_rollup
    parse_rollup-IsParsed (object raw) =
        parse_wrapped-IsParsed (or_null (lookup "vehicle_idle_rollup" raw))
    parse_rollup-IsParsed null = ("invalid_item", refl)
    parse_rollup-IsParsed _ = ("invalid_item", refl)

    parse_items-IsParsed :
        (items : Items)
        → Parses
            (λ rs. All IsParsed rs)
            (parse_items decimal organization_id organization_slug context items)
    unfolding parse_items
    parse_items-IsParsed nil = tt
    parse_items-IsParsed (cons raw items) =
        ground (arith, parse_rollup-IsParsed raw, parse_items-IsParsed items)

    parse_container-IsParsed :
        (v : Value)
        → Parses
            (λ rs. All IsParsed rs)
            (parse_container decimal organization_id organization_slug context v)
    unfolding parse_container
    parse_container-IsParsed null = ("missing_container", refl)
    parse_container-IsParsed (list items) = parse_items-IsParsed items
    parse_container-IsParsed _ = ("invalid_container", refl)

    -- Every page parses into rollups of the caller's tenant and window, with the certified
    -- provenance, identities in their final form and finite metrics, or raises a parse error.
    pub parse-IsParsed :
        (payload : Value)
        → Parses
            (λ rs. All IsParsed rs)
            (parse_vehicle_utilization_rollups decimal organization_id organization_slug context
              payload)
    unfolding parse_vehicle_utilization_rollups
    parse-IsParsed (object payload) =
        parse_container-IsParsed (or_null (lookup "vehicle_idle_rollups" payload))
    parse-IsParsed null = ("invalid_envelope", refl)
    parse-IsParsed _ = ("invalid_envelope", refl)
