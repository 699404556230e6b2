-- ===== src/Utilization/Production/OnePage.antt =====
-- The one page that a day of
-- chief-of-staff/backend/app/motive/vehicle_utilization_production_ingestion.py takes.
use polaris_lab.Base.{
  not_apart, ◌≤◌, ltb-false, String, true, false, not, Option, List, [], length, ltb, ◌==◌,
  contains, Nodup, All, ◌≡◌, inl, inr, arith,
}
use polaris_lab.Outcome.{Exc, pagination_error, Result, ok, err, Result-cases}
use polaris_lab.Python.Value.{Value}
use polaris_lab.Python.Decimal.{Reader}
use polaris_lab.Utilization.Rollup.{Date, Rollup}
use polaris_lab.Utilization.Parser.{parse_vehicle_utilization_rollups}
use polaris_lab.Utilization.Parser.Laws.{IsParsed, parse-IsParsed}
use polaris_lab.Utilization.Http.{HttpClient}
use polaris_lab.Utilization.Metadata.{PaginationMetadata, parse_pagination_metadata}
use polaris_lab.Utilization.Pages.{as_pagination_error}
use polaris_lab.Utilization.Pages.Page.{
  vehicle_ids, Paginates, Returns, Paginates-bind, raise_if-Paginates, check_rollups-Paginates,
  metadata-Paginates,
}
use polaris_lab.Utilization.Production.Page.{one_day, only_page}

Paginates-err {ℓ} :
    {A : Type ℓ} (r : Result A) (e : Exc)
    → r ≡ err e
    → Paginates Returns r
    → (code : String) × (e ≡ pagination_error code)
Paginates-err (ok a) e h p = cc
Paginates-err (err e') e h (code, p) = (code, cc)

module _ (decimal : Reader) (client : HttpClient) (api_key : Option String)
    (organization_id slug : String) (ids : List String) (day : Date) where
  -- The rollups of a page of which the metadata says that it is the only one.
  pub record IsOnlyPage (payload : Value) (rollups : List Rollup) : Type 0 where
    pub metadata : PaginationMetadata
    pub stated : parse_pagination_metadata payload 1 100 ≡ ok metadata
    pub complete : length rollups ≡ metadata.total
    pub fits : length rollups ≤ 100
    pub distinct : Nodup (vehicle_ids rollups)
    pub selected : All (λ r. contains r.provider_vehicle_id ids ≡ true) rollups
    pub parsed :
        All
          (IsParsed decimal organization_id slug
            (one_day decimal client api_key organization_id slug ids day))
          rollups

  page_rollups :
      (payload : Value)
      → Paginates
          (λ rs.
            All
              (IsParsed decimal organization_id slug
                (one_day decimal client api_key organization_id slug ids day))
              rs)
          (as_pagination_error (
            parse_vehicle_utilization_rollups decimal organization_id slug
              (one_day decimal client api_key organization_id slug ids day)
              payload))
  page_rollups payload = ground (
    arith,
    parse-IsParsed decimal organization_id slug
        (one_day decimal client api_key organization_id slug ids day) payload,
  )

  abbrev AreChecked : List Rollup → List String → Type 0
  AreChecked rs seen =
      (seen ≡ vehicle_ids rs) × Nodup seen × All (λ r. contains r.provider_vehicle_id ids ≡ true) rs

  built :
      (payload : Value) (m : PaginationMetadata) (rs : List Rollup) (seen : List String)
      → parse_pagination_metadata payload 1 100 ≡ ok m
      → ltb 100 m.total ≡ false
      → not (length rs == m.total) ≡ false
      → All
          (IsParsed decimal organization_id slug
            (one_day decimal client api_key organization_id slug ids day))
          rs
      → AreChecked rs seen
      → IsOnlyPage payload rs
  built payload m rs seen h few full par checked = record {
    metadata = m;
    stated = h;
    complete = not_apart (length rs) m.total full;
    fits = omega (arith, ltb-false 100 m.total few, not_apart (length rs) m.total full);
    distinct = rw (← checked.0) checked.1;
    selected = checked.2;
    parsed = par;
  }

  -- A page either becomes rollups, as many as its metadata states and at most a hundred, each of the
  -- tenant and the day and of a selected vehicle, no vehicle twice, or is refused with a pagination
  -- error.
  pub only_page-IsOnlyPage :
      (payload : Value)
      → Paginates
          (IsOnlyPage payload)
          (only_page decimal client api_key organization_id slug ids day payload)
  unfolding only_page
  only_page-IsOnlyPage payload = elim (Result-cases (parse_pagination_metadata payload 1 100)) [
    | inr (e, h) ↦ rw h (Paginates-err _ e h (metadata-Paginates payload 1 100))
    | inl (m, h) ↦ rw h (
        raise_if-Paginates (IsOnlyPage payload) _ _ _ λ few.
          Paginates-bind _ (IsOnlyPage payload) _ _ (page_rollups payload) λ rs par.
            raise_if-Paginates (IsOnlyPage payload) _ _ _ λ full.
              Paginates-bind (AreChecked rs) (IsOnlyPage payload) _ _
                (check_rollups-Paginates ids rs [] tt)
                λ seen checked. built payload m rs seen h few full par checked)
  ]
