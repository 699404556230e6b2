-- ===== src/Utilization/Pages/Serve.antt =====
-- A provider that serves a data set in pages, and what one round of the loop reads of it.
use polaris_lab.Base.{
  ℕ, suc, ◌+◌, ◌≤◌, String, ◌≡◌, sym, ap, if◌then◌else◌, true, false, ◌&&◌, Option, some, List, [],
  ◌∷◌, ◌++◌, arith, leb, ltb, contains, length, All, Nodup, Nodup-middle,
}
use mathlib.Core.List.{append_assoc, append-nil}
use polaris_lab.Outcome.{Result, ok}
use polaris_lab.Python.Value.{Value}
use polaris_lab.Python.Decimal.{Reader}
use polaris_lab.Utilization.Rollup.{Rollup}
use polaris_lab.Utilization.Parser.{parse_vehicle_utilization_rollups}
use polaris_lab.Utilization.Http.{HttpClient, Query, selected_ids, request_page}
use polaris_lab.Utilization.Metadata.{parse_pagination_metadata}
use polaris_lab.Utilization.Pages.{
  PaginatedRead, Totals, Progress, agreed_totals, check_rollups, is_empty_page, context, with_page,
  checked_page, take_page, finished, read_page, after_page,
}
use polaris_lab.Utilization.Pages.Page.{vehicle_ids}

abbrev pub concat_rollups : List (List Rollup) → List Rollup
concat_rollups [] = []
concat_rollups (rs ∷ chunks) = rs ++ concat_rollups chunks

-- A page without rollups is served for an empty total only.
abbrev pub IsFilled : ℕ → List Rollup → Type 0
IsFilled total rs = (is_empty_page rs && ltb 0 total) ≡ false

check_rollups-eq :
    (selected : List String) (rs : List Rollup) (seen : List String)
    → All (λ r. contains r.provider_vehicle_id selected ≡ true) rs
    → Nodup (seen ++ vehicle_ids rs)
    → check_rollups selected rs seen ≡ ok (seen ++ vehicle_ids rs)
unfolding check_rollups
check_rollups-eq selected [] seen h n = ap ok (sym (append-nil seen))
check_rollups-eq selected (r ∷ rs) seen h n = ground (
  arith,
  Nodup-middle seen r.provider_vehicle_id (vehicle_ids rs) n,
  append_assoc seen (r.provider_vehicle_id ∷ []) (vehicle_ids rs),
  check_rollups-eq selected rs (seen ++ r.provider_vehicle_id ∷ []) h.1,
)

pub after_page_known :
    (next : ℕ → Progress → ℕ → Result PaginatedRead × ℕ) (n sent : ℕ) (st : Progress) (t : Totals)
    → st.totals ≡ some t
    → after_page next n (ok st, sent) ≡ (
        if leb t.expected_pages (length st.pages)
        then (finished st t, sent)
        else next (n + 1) st sent)
unfolding after_page
after_page_known next n sent st t known = ground arith

module _ (decimal : Reader) (client : HttpClient) (api_key : Option String) (q : Query)
    (total : ℕ) where
  -- Request `sent` for page `n` is answered by a payload with consistent metadata that parses into
  -- the rollups `rs`.
  pub record Answers (n sent : ℕ) (rs : List Rollup) : Type 0 where
    pub payload : Value
    pub page : request_page client api_key q n sent ≡ (ok payload, suc sent)
    pub metadata :
        parse_pagination_metadata payload n q.per_page
        ≡ ok (record { per_page = q.per_page; page_no = n; total = total })
    pub rollups :
        parse_vehicle_utilization_rollups decimal q.organization_id q.organization_slug
          (context decimal q)
          payload
        ≡ ok rs

  -- The provider answers the pages from `n` on with these chunks, whatever was asked before.
  abbrev pub Serves : ℕ → ℕ → List (List Rollup) → Type 0
  Serves n sent [] = Unit
  Serves n sent (rs ∷ chunks) = Answers n sent rs × Serves (suc n) (suc sent) chunks

  module _ (st : Progress) (n sent : ℕ) (rs : List Rollup) (t : Totals) (a : Answers n sent rs)
      (known : agreed_totals q.per_page st.totals total ≡ ok t) (count : t.pagination_total ≡ total)
      (size : length rs ≤ q.per_page) (filled : IsFilled total rs)
      (seen : st.seen_provider_vehicle_ids ≡ vehicle_ids st.all_rollups)
      (selected : All
        (λ r. contains r.provider_vehicle_id (selected_ids q.provider_vehicle_ids) ≡ true)
        rs)
      (distinct : Nodup (vehicle_ids st.all_rollups ++ vehicle_ids rs)) where
    abbrev pub after : Progress
    after = with_page st n q.per_page rs (st.seen_provider_vehicle_ids ++ vehicle_ids rs) t

    checked : checked_page decimal q n st t rs ≡ ok after
    unfolding checked_page
    checked = ground (
      arith,
      check_rollups-eq (selected_ids q.provider_vehicle_ids) rs st.seen_provider_vehicle_ids
          selected (rw seen distinct),
    )

    pub read_page-eq : read_page decimal client api_key q n st sent ≡ (ok after, suc sent)
    unfolding read_page take_page
    read_page-eq = rw (a.page, a.metadata, known, a.rollups) (rw checked)
