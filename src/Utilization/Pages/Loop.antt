-- ===== src/Utilization/Pages/Loop.antt =====
-- The whole read: what a successful read has, and that the loop always ends within its fuel.
use polaris_lab.Base.{
  refl, ◌⊎◌, ap, ℕ, zero, suc, ◌+◌, ◌≤◌, ◌<◌, String, ◌≡◌, sym, if◌then◌else◌, Option, none, some,
  arith, leb, length, All, Nodup, inl, inr, Bool-cases, leb→le, leb-false,
}
use mathlib.Core.Path.{subst}
use polaris_lab.Outcome.{Exc, unexpected, Result, ok, err, ◌>>=◌}
use polaris_lab.Python.Value.{Value}
use polaris_lab.Python.Decimal.{Reader}
use polaris_lab.Utilization.Http.{HttpClient, Query, request_page}
use polaris_lab.Utilization.Http.Errors.{IsReadError, Requests, request_page-Requests}
use polaris_lab.Utilization.Metadata.{max_vehicle_utilization_pages}
use polaris_lab.Utilization.Pages.{
  PaginatedRead, Totals, Progress, take_page, finished, read_page, after_page, read_loop,
  expected_page_count,
}
use polaris_lab.Utilization.Pages.Page.{
  vehicle_ids, Paginates, IsBounded, AreBounded, Continues, flat_pages, AreNumbered,
}
use polaris_lab.Utilization.Pages.Step.{
  IsSelected, IsOfQuery, IsSized, IsReading, Advances, StatesHuge, take_page-cases,
}

module _ (decimal : Reader) (q : Query) where
  -- What a read that returns has: the pages are numbered from 1, each within the size that was asked
  -- for, as many as the total needs; together they hold the rollups, as many as the total says, each
  -- of another vehicle that was asked for, and one request was made for each page.
  pub record IsComplete (out : PaginatedRead) : Type 0 where
    pub total : length out.rollups ≡ out.pagination_total
    pub distinct : Nodup (vehicle_ids out.rollups)
    pub selected : All (IsSelected decimal q) out.rollups
    pub parsed : All (IsOfQuery decimal q) out.rollups
    pub contents : out.rollups ≡ flat_pages out.pages
    pub sizes : All (IsSized decimal q) out.pages
    pub numbers : AreNumbered 1 out.pages
    pub read : out.pages_read ≡ length out.pages
    pub calls : out.provider_calls ≡ length out.pages
    pub all_pages : length out.pages ≡ out.expected_pages
    pub expected : out.expected_pages ≡ expected_page_count out.pagination_total q.per_page
    pub within : out.expected_pages ≤ max_vehicle_utilization_pages

  finished-IsComplete :
      (st : Progress) (t : Totals)
      → IsReading decimal q st
      → IsBounded q.per_page t
      → length st.pages ≡ t.expected_pages
      → Paginates (λ out. IsComplete out × (out.provider_calls ≡ length st.pages)) (finished st t)
  unfolding finished
  finished-IsComplete st t h b e = ground arith

  -- More pages are wanted: none was read yet, or fewer than the totals need.
  abbrev IsPending : ℕ → Option Totals → Type 0
  IsPending n none = n ≡ 0
  IsPending n (some t) = n < t.expected_pages

  pending_below :
      (n : ℕ) (totals : Option Totals)
      → AreBounded q.per_page totals
      → IsPending n totals
      → n < max_vehicle_utilization_pages
  pending_below n none b p = omega arith
  pending_below n (some t) b p = omega arith

  module _ (client : HttpClient) (api_key : Option String) where
    -- Some page was answered with a total whose number of pages has no float.
    pub record HasOverflow : Type 0 where
      pub page_no : ℕ
      pub requests : ℕ
      pub payload : Value
      pub answer : (request_page client api_key q page_no requests).0 ≡ ok payload
      pub huge : StatesHuge decimal q page_no payload

    -- What a read raises: what a request raises, or OverflowError for such a total.
    abbrev pub IsEndError : Exc → Type 0
    IsEndError unexpected = IsReadError client unexpected ⊎ HasOverflow
    IsEndError e = IsReadError client e

    IsReadError-IsEndError : (e : Exc) → IsReadError client e → IsEndError e
    IsReadError-IsEndError unexpected h = inl h
    IsReadError-IsEndError _ h = h

    module _ (before : ℕ) where
      -- A read returns a complete read that made one request for each page, or raises one of these
      -- exceptions after no more requests than the guard allows.
      abbrev pub Ends : Result PaginatedRead × ℕ → Type 0
      Ends (ok out, sent) = IsComplete out × (sent ≡ before + out.provider_calls)
      Ends (err e, sent) = IsEndError e × (sent ≤ before + max_vehicle_utilization_pages)

  module _ (client : HttpClient) (api_key : Option String) (before : ℕ)
      (positive : 1 ≤ q.per_page) where
    -- The state of the loop at its head.
    pub record IsAtHead (page_no : ℕ) (st : Progress) (sent : ℕ) : Type 0 where
      pub reading : IsReading decimal q st
      pub next : page_no ≡ suc (length st.pages)
      pub requests : sent ≡ before + length st.pages
      pub pending : IsPending (length st.pages) st.totals

    abbrev Reads : Progress → Result Progress × ℕ → Type 0
    Reads st (ok st', sent) = Advances decimal q st st' × (sent ≡ before + length st'.pages)
    Reads st (err e, sent) =
        IsEndError client api_key e × (sent ≤ before + max_vehicle_utilization_pages)

    paginated-Reads :
        (st : Progress) (sent : ℕ) (r : Result Progress)
        → sent ≡ before + suc (length st.pages)
        → length st.pages < max_vehicle_utilization_pages
        → Paginates (Advances decimal q st) r
        → Reads st (r, sent)
    paginated-Reads st sent (ok st') e b h = (h, omega (arith, h.1))
    paginated-Reads st sent (err e') e b (code, h) = rw h (tt, omega arith)

    took-Reads :
        (page_no sent : ℕ) (st : Progress) (a : Result Value × ℕ)
        → request_page client api_key q page_no sent ≡ a
        → IsAtHead page_no st sent
        → Requests client sent a
        → Reads st (a.0 >>= take_page decimal q page_no st, a.1)
    took-Reads page_no sent st (err e, sent') known h r =
        let below = pending_below (length st.pages) st.totals h.reading.bounded h.pending in
        (IsReadError-IsEndError client api_key e r.0, omega (arith, r.1, below, h.requests))
    took-Reads page_no sent st (ok payload, sent') known h r =
        let below = pending_below (length st.pages) st.totals h.reading.bounded h.pending in
        elim (take_page-cases decimal q st page_no payload positive h.reading h.next) [
          | inl taken ↦
              paginated-Reads st sent' (take_page decimal q page_no st payload)
                (omega (arith, r, h.requests)) below taken
          | inr (huge, raised) ↦ rw raised (
            inr (record {
              page_no = page_no;
              requests = sent;
              payload = payload;
              answer = ap (λ answer. answer.0) known;
              huge = huge;
            }),
            omega (arith, r, h.requests, below),
          )
        ]

    pending_step :
        (n : ℕ) (totals : Option Totals) (t : Totals)
        → IsPending n totals
        → Continues totals t
        → suc n ≤ t.expected_pages
    pending_step n none t p c = omega arith
    pending_step n (some u) t p c = rw c p

    finished-Ends :
        (n sent : ℕ) (r : Result PaginatedRead)
        → sent ≡ before + n
        → n ≤ max_vehicle_utilization_pages
        → Paginates (λ out. IsComplete out × (out.provider_calls ≡ n)) r
        → Ends client api_key before (r, sent)
    finished-Ends n sent (ok out) e b h = (h.0, omega (arith, h.1))
    finished-Ends n sent (err e') e b (code, h) = ground arith

    module _ (next : ℕ → Progress → ℕ → Result PaginatedRead × ℕ) (page_no : ℕ) (st : Progress)
        (step : (st' : Progress) (sent : ℕ)
          → length st'.pages ≡ suc (length st.pages)
          → IsAtHead (page_no + 1) st' sent
          → Ends client api_key before (next (page_no + 1) st' sent))
        (number : page_no ≡ suc (length st.pages))
        (pending : IsPending (length st.pages) st.totals) where
      after_page_known :
          (st' : Progress) (sent : ℕ) (t : Totals)
          → st'.totals ≡ some t
          → after_page next page_no (ok st', sent) ≡ (
              if leb t.expected_pages (length st'.pages)
              then (finished st' t, sent)
              else next (page_no + 1) st' sent)
      unfolding after_page
      after_page_known st' sent t known = ground arith

      at_head :
          (st' : Progress) (sent : ℕ) (t : Totals)
          → IsReading decimal q st'
          → length st'.pages ≡ suc (length st.pages)
          → sent ≡ before + length st'.pages
          → st'.totals ≡ some t
          → length st'.pages < t.expected_pages
          → IsAtHead (page_no + 1) st' sent
      at_head st' sent t reading len requests known more = record {
        reading = reading;
        next = omega (arith, number, len);
        requests = requests;
        pending = rw known more;
      }

      after_page-Ends :
          (r : Result Progress × ℕ)
          → Reads st r
          → Ends client api_key before (after_page next page_no r)
      after_page-Ends (err e, sent) r = unfold after_page in r
      after_page-Ends (ok st', sent) (adv, requests) =
          subst (Ends client api_key before) (sym (after_page_known st' sent t known))
            (elim (Bool-cases (leb t.expected_pages (length st'.pages))) [
              | inl stop ↦ rw stop (
                  finished-Ends (length st'.pages) sent (finished st' t) requests
                    (omega (arith, bounded.within, more))
                    (finished-IsComplete st' t adv.0 bounded
                      (omega (arith, leb→le t.expected_pages (length st'.pages) stop, more))))
              | inr go ↦ rw go (
                  step st' sent adv.1 (
                    at_head st' sent t adv.0 adv.1 requests known
                      (leb-false t.expected_pages (length st'.pages) go)))
            ])
        where
          t : Totals
          t = adv.2.0

          known : st'.totals ≡ some t
          known = adv.2.1

          bounded : IsBounded q.per_page t
          bounded = adv.2.2

          more : length st'.pages ≤ t.expected_pages
          more = rw adv.1 (pending_step (length st.pages) st.totals t pending adv.2.3)

    pub read_loop-Ends :
        (fuel page_no : ℕ) (st : Progress) (sent : ℕ)
        → max_vehicle_utilization_pages ≤ length st.pages + fuel
        → IsAtHead page_no st sent
        → Ends client api_key before (read_loop decimal client api_key q fuel page_no st sent)
    unfolding read_loop read_page
    read_loop-Ends zero page_no st sent f h =
        absurd
          (omega (arith, pending_below (length st.pages) st.totals h.reading.bounded h.pending))
    read_loop-Ends (suc fuel) page_no st sent f h =
        after_page-Ends (read_loop decimal client api_key q fuel) page_no st
          (λ st' sent' len head.
            read_loop-Ends fuel (page_no + 1) st' sent' (omega (arith, len)) head)
          h.next h.pending _
          (took-Reads page_no sent st (request_page client api_key q page_no sent) refl h
            (request_page-Requests client api_key q page_no sent))
