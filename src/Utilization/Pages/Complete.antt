-- ===== src/Utilization/Pages/Complete.antt =====
-- A provider that serves a data set in pages is read completely.
use polaris_lab.Python.Float.{float_bound, float_bound_large, has_float}
use polaris_lab.Base.{
  ◌*◌, leb, ℕ, zero, suc, ◌+◌, ◌≤◌, String, ◌≡◌, refl, sym, ap, ◌∙◌, if◌then◌else◌, true, false,
  Option, some, List, [], ◌∷◌, ◌++◌, arith, leb, le→leb, lt→leb, contains, length, length-append,
  All, Nodup, Nodup-append_left,
}
use mathlib.Core.List.{append_assoc, append-nil, map-append}
use mathlib.Core.Path.{subst}
use native.Mathlib.Numerals.{add-one}
use polaris_lab.Outcome.{Result, ok}
use polaris_lab.Python.Decimal.{Reader}
use polaris_lab.Utilization.Rollup.{Rollup}
use polaris_lab.Utilization.Http.{HttpClient, Query, selected_ids, invalid_per_page}
use polaris_lab.Utilization.Metadata.{max_vehicle_utilization_pages}
use polaris_lab.Utilization.Pages.{
  PaginatedRead, Totals, Progress, start, agreed_totals, with_page, finished, paginated_read,
  read_page, after_page, read_loop, read_selected, read_vehicle_utilization_pages,
  expected_page_count,
}
use polaris_lab.Utilization.Pages.Page.{vehicle_ids}
use polaris_lab.Utilization.Pages.Serve.{
  concat_rollups, IsFilled, after_page_known, Serves, read_page-eq,
}

module _ (decimal : Reader) (client : HttpClient) (api_key : Option String) (q : Query)
    (total : ℕ) where
  abbrev AreSelected : List Rollup → Type 0
  AreSelected =
      All (λ r. contains r.provider_vehicle_id (selected_ids q.provider_vehicle_ids) ≡ true)

  -- The rest of the data set is `chunks`, and what was read so far fits before it.
  pub record IsRest (st : Progress) (n sent : ℕ) (t : Totals) (chunks : List (List Rollup))
      : Type 0 where
    pub serves : Serves decimal client api_key q total n sent chunks
    pub known : agreed_totals q.per_page st.totals total ≡ ok t
    pub counted : t.pagination_total ≡ total
    pub paged : t.expected_pages ≡ length st.pages + length chunks
    pub seen : st.seen_provider_vehicle_ids ≡ vehicle_ids st.all_rollups
    pub sizes : All (λ rs. length rs ≤ q.per_page) chunks
    pub filled : All (IsFilled total) chunks
    pub selected : All AreSelected chunks
    pub distinct : Nodup (vehicle_ids st.all_rollups ++ vehicle_ids (concat_rollups chunks))
    pub total_count : length (st.all_rollups ++ concat_rollups chunks) ≡ total

  module _ (st : Progress) (n sent : ℕ) (t : Totals) (rs : List Rollup)
      (chunks : List (List Rollup)) (h : IsRest st n sent t (rs ∷ chunks)) where
    abbrev next : Progress
    next = with_page st n q.per_page rs (st.seen_provider_vehicle_ids ++ vehicle_ids rs) t

    ids_split :
        vehicle_ids st.all_rollups ++ vehicle_ids (concat_rollups (rs ∷ chunks))
        ≡ (vehicle_ids st.all_rollups ++ vehicle_ids rs) ++ vehicle_ids (concat_rollups chunks)
    ids_split = rw (map-append (λ r. r.provider_vehicle_id) rs (concat_rollups chunks)) (
        sym (
          append_assoc (vehicle_ids st.all_rollups) (vehicle_ids rs)
            (vehicle_ids (concat_rollups chunks))))

    distinct_so_far : Nodup (vehicle_ids st.all_rollups ++ vehicle_ids rs)
    distinct_so_far =
        Nodup-append_left _ (vehicle_ids (concat_rollups chunks)) (subst Nodup ids_split h.distinct)

    read_next : read_page decimal client api_key q n st sent ≡ (ok next, suc sent)
    read_next =
        read_page-eq decimal client api_key q total st n sent rs t h.serves.0 h.known h.counted
          h.sizes.0 h.filled.0 h.seen h.selected.0 distinct_so_far

    ids_next : vehicle_ids next.all_rollups ≡ vehicle_ids st.all_rollups ++ vehicle_ids rs
    unfolding with_page
    ids_next = map-append (λ r. r.provider_vehicle_id) st.all_rollups rs

    all_next :
        next.all_rollups ++ concat_rollups chunks ≡ st.all_rollups ++ concat_rollups (rs ∷ chunks)
    unfolding with_page
    all_next = append_assoc st.all_rollups rs (concat_rollups chunks)

    pages_next : length next.pages ≡ length st.pages + 1
    unfolding with_page
    pages_next = length-append {0} st.pages _

    next-IsRest : IsRest next (n + 1) (suc sent) t chunks
    next-IsRest = record {
      serves = rw add-one h.serves.1;
      known = unfold with_page agreed_totals in ground (arith, h.counted);
      counted = h.counted;
      paged = omega (arith, h.paged, pages_next);
      seen = unfold with_page in rw (h.seen) (sym ids_next);
      sizes = h.sizes.1;
      filled = h.filled.1;
      selected = h.selected.1;
      distinct = rw ids_next (subst Nodup ids_split h.distinct);
      total_count = rw all_next h.total_count;
    }

    totals_next : next.totals ≡ some t
    unfolding with_page
    totals_next = refl

    loop_step :
        (fuel : ℕ)
        → read_loop decimal client api_key q (suc fuel) n st sent ≡ (
            if leb t.expected_pages (length next.pages)
            then (finished next t, suc sent)
            else read_loop decimal client api_key q fuel (n + 1) next (suc sent))
    unfolding read_loop
    loop_step fuel =
        ap (after_page (read_loop decimal client api_key q fuel) n) read_next
        ∙ after_page_known (read_loop decimal client api_key q fuel) n (suc sent) next t totals_next

  abbrev Reads : List Rollup → ℕ → Result PaginatedRead × ℕ → Type 0
  Reads rollups sent' r = (out : PaginatedRead) × (r ≡ (ok out, sent')) × (out.rollups ≡ rollups)

  Reads-eq :
      (rollups rollups' : List Rollup) (s s' : ℕ) (r r' : Result PaginatedRead × ℕ)
      → rollups ≡ rollups'
      → s ≡ s'
      → r' ≡ r
      → Reads rollups s r
      → Reads rollups' s' r'
  Reads-eq rollups rollups' s s' r r' e f g (out, h, k) = (out, rw (g, h, f), k ∙ e)

  finished-Reads :
      (st : Progress) (t : Totals) (n sent : ℕ)
      → IsRest st n sent t []
      → Reads (st.all_rollups ++ []) sent (finished st t, sent)
  unfolding finished
  finished-Reads st t n sent h =
      let count : length st.all_rollups ≡ t.pagination_total =
        rw append-nil at (h.total_count ∙ sym h.counted) in
      (paginated_read st t, ground (arith, count), sym (append-nil st.all_rollups))

  loop-Reads :
      (chunks : List (List Rollup)) (rs : List Rollup) (fuel n sent : ℕ) (st : Progress)
      (t : Totals)
      → IsRest st n sent t (rs ∷ chunks)
      → suc (length chunks) ≤ fuel
      → Reads
          (st.all_rollups ++ concat_rollups (rs ∷ chunks))
          (sent + suc (length chunks))
          (read_loop decimal client api_key q fuel n st sent)
  loop-Reads chunks rs zero n sent st t h f = absurd (omega arith)
  loop-Reads [] rs (suc fuel) n sent st t h f =
      let st' = next st n sent t rs [] h in
      let rest = next-IsRest st n sent t rs [] h in
      let stop : leb t.expected_pages (length st'.pages) ≡ true =
        le→leb _ _ (omega (arith, h.paged, pages_next st n sent t rs [] h)) in
      Reads-eq _ _ (suc sent) (sent + 1) (finished st' t, suc sent) _ (all_next st n sent t rs [] h)
        (omega arith) (loop_step st n sent t rs [] h fuel ∙ rw stop)
        (finished-Reads st' t (n + 1) (suc sent) rest)
  loop-Reads (rs' ∷ chunks) rs (suc fuel) n sent st t h f =
      let st' = next st n sent t rs (rs' ∷ chunks) h in
      let rest = next-IsRest st n sent t rs (rs' ∷ chunks) h in
      let more : leb t.expected_pages (length st'.pages) ≡ false =
        lt→leb _ _ (omega (arith, h.paged, pages_next st n sent t rs (rs' ∷ chunks) h)) in
      Reads-eq _ _ (suc sent + suc (length chunks)) (sent + suc (suc (length chunks)))
        (read_loop decimal client api_key q fuel (n + 1) st' (suc sent)) _
        (all_next st n sent t rs (rs' ∷ chunks) h) (omega arith)
        (loop_step st n sent t rs (rs' ∷ chunks) h fuel ∙ rw more)
        (loop-Reads chunks rs' fuel (n + 1) (suc sent) st' t rest (omega arith))

  -- The data set `chunks` is served in pages of the query's size.
  pub record IsServed (sent : ℕ) (chunks : List (List Rollup)) : Type 0 where
    pub serves : Serves decimal client api_key q total 1 sent chunks
    pub paged : length chunks ≡ expected_page_count total q.per_page
    pub guarded : length chunks ≤ max_vehicle_utilization_pages
    pub sizes : All (λ rs. length rs ≤ q.per_page) chunks
    pub filled : All (IsFilled total) chunks
    pub selected : All AreSelected chunks
    pub distinct : Nodup (vehicle_ids (concat_rollups chunks))
    pub total_count : length (concat_rollups chunks) ≡ total

  abbrev first_totals : Totals
  first_totals = record {
    pagination_total = total;
    expected_pages = expected_page_count total q.per_page;
  }

  concat_rollups-le :
      (chunks : List (List Rollup))
      → q.per_page ≤ 100
      → All (λ rs. length rs ≤ q.per_page) chunks
      → length (concat_rollups chunks) ≤ length chunks * 100
  concat_rollups-le [] low h = omega arith
  concat_rollups-le (rs ∷ chunks) low h =
      omega (arith, length-append rs (concat_rollups chunks), h.0, concat_rollups-le chunks low h.1)

  -- The total of a data set that is served is far below what overflows.
  served-has_float :
      (sent : ℕ) (chunks : List (List Rollup))
      → invalid_per_page q.per_page ≡ false
      → IsServed sent chunks
      → leb (float_bound * q.per_page) total ≡ false
  served-has_float sent chunks good h =
      has_float float_bound q.per_page total float_bound_large (ground arith)
        (omega (arith, h.total_count, h.guarded, concat_rollups-le chunks (ground arith) h.sizes))

  start-IsRest :
      (sent : ℕ) (chunks : List (List Rollup))
      → invalid_per_page q.per_page ≡ false
      → IsServed sent chunks
      → IsRest start 1 sent first_totals chunks
  start-IsRest sent chunks good h = record {
    serves = h.serves;
    known =
        unfold agreed_totals in
        ground (arith, h.paged, h.guarded, served-has_float sent chunks good h);
    counted = refl;
    paged = omega (arith, h.paged);
    seen = refl;
    sizes = h.sizes;
    filled = h.filled;
    selected = h.selected;
    distinct = h.distinct;
    total_count = h.total_count;
  }

  read_selected-Reads :
      (ids : List String) (sent : ℕ) (rs : List Rollup) (chunks : List (List Rollup))
      → (length ids ≡ 0 → ⊥)
      → invalid_per_page q.per_page ≡ false
      → IsServed sent (rs ∷ chunks)
      → Reads
          (concat_rollups (rs ∷ chunks))
          (sent + suc (length chunks))
          (read_selected decimal client api_key q ids sent)
  unfolding read_selected
  read_selected-Reads [] sent rs chunks ne good h = absurd (ne refl)
  read_selected-Reads (id ∷ ids) sent rs chunks ne good h = rw good (
      loop-Reads chunks rs max_vehicle_utilization_pages 1 sent start first_totals
        (start-IsRest sent (rs ∷ chunks) good h) h.guarded)

  -- When some vehicle is selected, the page size is allowed, and the provider serves the rollups of
  -- selected vehicles, each once, in filled pages of that size whose metadata names their number and
  -- the total, no more than the page guard allows, then the read returns exactly those rollups in
  -- their order, with one request for each page.
  pub read-Complete :
      (sent : ℕ) (rs : List Rollup) (chunks : List (List Rollup))
      → (length (selected_ids q.provider_vehicle_ids) ≡ 0 → ⊥)
      → invalid_per_page q.per_page ≡ false
      → IsServed sent (rs ∷ chunks)
      → (out : PaginatedRead) × (read_vehicle_utilization_pages decimal client api_key q sent
          ≡ (ok out, sent + suc (length chunks)))
        × (out.rollups ≡ concat_rollups (rs ∷ chunks))
  unfolding read_vehicle_utilization_pages
  read-Complete sent rs chunks =
      read_selected-Reads (selected_ids q.provider_vehicle_ids) sent rs chunks
