-- ===== src/Utilization/Pages/Read.antt =====
-- `read_vehicle_utilization_pages` as its callers see it.
use polaris_lab.Base.{
  ℕ, ◌+◌, ◌-◌, ◌/◌, ◌≤◌, ◌<◌, String, ◌≡◌, refl, true, Option, List, [], ◌∷◌, arith, contains,
  length, length-map, All, Nodup-length-le, inl, inr, Bool-cases,
}
use native.Mathlib.Nat.{div-lt_iff_lt-mul}
use polaris_lab.Outcome.{ok}
use polaris_lab.Python.Decimal.{Reader}
use polaris_lab.Utilization.Rollup.{Rollup}
use polaris_lab.Utilization.Http.{HttpClient, Query, selected_ids, invalid_per_page}
use polaris_lab.Utilization.Metadata.{max_vehicle_utilization_pages}
use polaris_lab.Utilization.Pages.{
  PaginatedRead, start, read_selected, read_vehicle_utilization_pages, expected_page_count,
}
use polaris_lab.Utilization.Pages.Page.{vehicle_ids}
use polaris_lab.Utilization.Pages.Step.{start-IsReading}
use polaris_lab.Utilization.Pages.Loop.{IsComplete, Ends, read_loop-Ends}

module _ (decimal : Reader) (client : HttpClient) (api_key : Option String) (q : Query)
    (sent : ℕ) where
  read_selected-Ends :
      (ids : List String)
      → Ends decimal q client api_key sent (read_selected decimal client api_key q ids sent)
  unfolding read_selected
  read_selected-Ends [] = (tt, omega arith)
  read_selected-Ends (id ∷ ids) = elim (Bool-cases (invalid_per_page q.per_page)) [
    | inl bad ↦ rw bad (tt, omega arith)
    | inr good ↦ rw good (
        read_loop-Ends decimal q client api_key sent (ground arith) max_vehicle_utilization_pages 1
          start sent (omega arith)
          (record {
            reading = start-IsReading decimal q;
            next = refl;
            requests = omega arith;
            pending = refl;
          }))
  ]

  pub read-Ends :
      Ends decimal q client api_key sent
        (read_vehicle_utilization_pages decimal client api_key q sent)
  unfolding read_vehicle_utilization_pages
  read-Ends = read_selected-Ends (selected_ids q.provider_vehicle_ids)

All-vehicle_ids :
    (P : String → Type 0) (rs : List Rollup)
    → All (λ r. P r.provider_vehicle_id) rs
    → All P (vehicle_ids rs)
All-vehicle_ids P [] h = tt
All-vehicle_ids P (r ∷ rs) h = (h.0, All-vehicle_ids P rs h.1)

ceil_one :
    (total per_page : ℕ) → 0 < per_page → total ≤ per_page → (total + per_page - 1) / per_page < 2
ceil_one total per_page p h =
    (div-lt_iff_lt-mul {k = per_page} {x = total + per_page - 1} {y = 2} p).1 (omega arith)

expected_page_count-one :
    (total per_page : ℕ) → total ≤ per_page → expected_page_count total per_page ≤ 1
unfolding expected_page_count
expected_page_count-one total per_page h = ground (arith, ceil_one total per_page)

complete_one_page :
    (decimal : Reader) (q : Query) (out : PaginatedRead)
    → IsComplete decimal q out
    → length (selected_ids q.provider_vehicle_ids) ≤ q.per_page
    → out.provider_calls ≤ 1
complete_one_page decimal q out c fits = omega (
  arith,
  c.calls,
  c.all_pages,
  c.expected,
  c.total,
  expected_page_count-one out.pagination_total q.per_page,
  length-map out.rollups (λ (r : Rollup). r.provider_vehicle_id),
  Nodup-length-le (vehicle_ids out.rollups) (selected_ids q.provider_vehicle_ids) c.distinct (
      All-vehicle_ids (λ id. contains id (selected_ids q.provider_vehicle_ids) ≡ true) out.rollups
        c.selected),
)

-- With no more vehicles selected than fit on a page, a read that returns has made at most one
-- request to the provider.
pub read_one_page :
    (decimal : Reader) (client : HttpClient) (api_key : Option String) (q : Query) (sent : ℕ)
    (out : PaginatedRead) (sent' : ℕ)
    → length (selected_ids q.provider_vehicle_ids) ≤ q.per_page
    → read_vehicle_utilization_pages decimal client api_key q sent ≡ (ok out, sent')
    → sent' ≤ sent + 1
read_one_page decimal client api_key q sent out sent' fits returned =
    let ends : Ends decimal q client api_key sent (ok out, sent') =
      rw returned at (read-Ends decimal client api_key q sent) in
    omega (arith, ends.1, complete_one_page decimal q out ends.0 fits)
