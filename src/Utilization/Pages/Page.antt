-- ===== src/Utilization/Pages/Page.antt =====
-- One page: what the loop's body keeps, and which exceptions it raises.
use polaris_lab.Python.Float.{float_bound}
use polaris_lab.Base.{
  ◌*◌, Bool-cases, inl, inr, ◌⊎◌, leb, leb→le, ℕ, suc, ◌+◌, ◌≤◌, String, ◌≡◌, refl, sym, Bool, true,
  false, Option, none, some, List, [], ◌∷◌, ◌++◌, map, arith, contains, length, All, Nodup,
  Nodup-snoc,
}
use mathlib.Core.List.{append_assoc, append-nil}
use polaris_lab.Outcome.{
  unexpected, raise_if, pagination_error, Result, ok, err, ◌>>=◌, ◌>>◌, raise_if,
}
use polaris_lab.Base.Int.{pos, negsuc}
use polaris_lab.Python.Value.{Value, null, int, object, Fields, lookup, or_null}
use polaris_lab.Utilization.Rollup.{Rollup}
use polaris_lab.Utilization.Metadata.{
  max_vehicle_utilization_pages, int_in_range, pagination_int, checked_metadata, metadata_of,
  parse_pagination_metadata,
}
use polaris_lab.Utilization.Pages.{
  PageRead, Totals, expected_page_count, agreed_totals, check_rollups,
}

abbrev pub vehicle_ids : List Rollup → List String
vehicle_ids = map (λ r. r.provider_vehicle_id)

-- The call returns, with `P`, or raises a pagination error.
abbrev pub Paginates {ℓ} : {A : Type ℓ} → (A → Type 0) → Result A → Type 0
Paginates P (ok a) = P a
Paginates P (err e) = (code : String) × (e ≡ pagination_error code)

abbrev pub Returns {ℓ} : {A : Type ℓ} → A → Type 0
Returns a = Unit

-- The rule for a bind, and for a test that raises.
pub Paginates-bind {ℓ κ} :
    {A : Type ℓ} {B : Type κ} (P : A → Type 0) (Q : B → Type 0) (m : Result A) (f : A → Result B)
    → Paginates P m
    → ((a : A) → P a → Paginates Q (f a))
    → Paginates Q (m >>= f)
Paginates-bind P Q (ok a) f hm hf = hf a hm
Paginates-bind P Q (err e) f hm hf = hm

pub raise_if-Paginates {ℓ} :
    {B : Type ℓ} (Q : B → Type 0) (b : Bool) (code : String) (m : Result B)
    → (b ≡ false → Paginates Q m)
    → Paginates Q (raise_if b (pagination_error code) >> m)
raise_if-Paginates Q true code m h = (code, refl)
raise_if-Paginates Q false code m h = h refl

int_in_range-Paginates :
    (key : String) (lo : ℕ) (hi : Option ℕ) (v : Option Value)
    → Paginates Returns (int_in_range key lo hi v)
unfolding int_in_range
int_in_range-Paginates key lo hi none = ground arith
int_in_range-Paginates key lo hi (some (int (pos n))) = ground arith
int_in_range-Paginates key lo hi (some (int (negsuc n))) = ground arith
int_in_range-Paginates key lo hi (some _) = ground arith

pagination_int-Paginates :
    (f : Fields) (key : String) (lo : ℕ) (hi : Option ℕ)
    → Paginates Returns (pagination_int f key lo hi)
unfolding pagination_int
pagination_int-Paginates f key lo hi = int_in_range-Paginates key lo hi (lookup key f)

pub check_rollups-Paginates :
    (selected : List String) (rs : List Rollup) (seen : List String)
    → Nodup seen
    → Paginates
        (λ seen'.
          (seen' ≡ seen ++ vehicle_ids rs)
          × Nodup seen'
          × All (λ r. contains r.provider_vehicle_id selected ≡ true) rs)
        (check_rollups selected rs seen)
unfolding check_rollups
check_rollups-Paginates selected [] seen n = (sym (append-nil seen), n, tt)
check_rollups-Paginates selected (r ∷ rs) seen n = ground (
  arith,
  append_assoc seen (r.provider_vehicle_id ∷ []) (vehicle_ids rs),
  Nodup-snoc seen r.provider_vehicle_id n,
  check_rollups-Paginates selected rs (seen ++ r.provider_vehicle_id ∷ []),
)

checked_metadata-Paginates :
    (f : Fields) (page_no per_page : ℕ) → Paginates Returns (checked_metadata f page_no per_page)
unfolding checked_metadata
checked_metadata-Paginates f page_no per_page = ground (
  arith,
  pagination_int-Paginates f "per_page" 1 (some 100),
  pagination_int-Paginates f "page_no" 1 none,
  pagination_int-Paginates f "total" 0 none,
)

metadata_of-Paginates :
    (v : Value) (page_no per_page : ℕ) → Paginates Returns (metadata_of v page_no per_page)
unfolding metadata_of
metadata_of-Paginates null page_no per_page = ("missing_pagination", refl)
metadata_of-Paginates (object f) page_no per_page = checked_metadata-Paginates f page_no per_page
metadata_of-Paginates _ page_no per_page = ("invalid_pagination", refl)

pub metadata-Paginates :
    (v : Value) (page_no per_page : ℕ)
    → Paginates Returns (parse_pagination_metadata v page_no per_page)
unfolding parse_pagination_metadata
metadata-Paginates (object f) page_no per_page =
    metadata_of-Paginates (or_null (lookup "pagination" f)) page_no per_page
metadata-Paginates null page_no per_page = ("invalid_envelope", refl)
metadata-Paginates _ page_no per_page = ("invalid_envelope", refl)

-- The totals stand for the page count that the size asks for, within the guard.
pub record IsBounded (per_page : ℕ) (t : Totals) : Type 0 where
  pub expected : t.expected_pages ≡ expected_page_count t.pagination_total per_page
  pub within : t.expected_pages ≤ max_vehicle_utilization_pages

abbrev pub AreBounded : ℕ → Option Totals → Type 0
AreBounded per_page none = Unit
AreBounded per_page (some t) = IsBounded per_page t

expected_page_count-pos :
    (total per_page : ℕ) → 1 ≤ per_page → 1 ≤ expected_page_count total per_page
unfolding expected_page_count
expected_page_count-pos total per_page h = ground arith

-- The first totals need a page, and later ones are the same.
abbrev pub Continues : Option Totals → Totals → Type 0
Continues none t = 1 ≤ t.expected_pages
Continues (some before) t = t ≡ before

-- The totals are agreed on, or refused, or the first one overflows.
pub agreed_totals-cases :
    (per_page : ℕ) (before : Option Totals) (total : ℕ)
    → 1 ≤ per_page
    → AreBounded per_page before
    → Paginates
        (λ t. IsBounded per_page t × Continues before t)
        (agreed_totals per_page before total)
      ⊎ ((float_bound * per_page ≤ total) × (agreed_totals per_page before total ≡ err unexpected))
unfolding agreed_totals
agreed_totals-cases per_page none total p h =
    elim (Bool-cases (leb (float_bound * per_page) total)) [
      | inl huge ↦ inr (leb→le (float_bound * per_page) total huge, rw huge refl)
      | inr fits ↦ inl (rw fits (ground (arith, expected_page_count-pos total per_page p)))
    ]
agreed_totals-cases per_page (some t) total p h = inl (ground arith)

abbrev pub flat_pages : List PageRead → List Rollup
flat_pages [] = []
flat_pages (p ∷ ps) = p.rollups ++ flat_pages ps

-- Pages in the order of their numbers, from `n` on.
abbrev pub AreNumbered : ℕ → List PageRead → Type 0
AreNumbered n [] = Unit
AreNumbered n (p ∷ ps) = (p.page_no ≡ n) × AreNumbered (suc n) ps

pub flat_pages-append :
    (ps qs : List PageRead) → flat_pages (ps ++ qs) ≡ flat_pages ps ++ flat_pages qs
flat_pages-append [] qs = refl
flat_pages-append (p ∷ ps) qs =
    rw (flat_pages-append ps qs) (sym (append_assoc p.rollups (flat_pages ps) (flat_pages qs)))

pub AreNumbered-snoc :
    (n : ℕ) (ps : List PageRead) (p : PageRead)
    → AreNumbered n ps
    → p.page_no ≡ n + length ps
    → AreNumbered n (ps ++ p ∷ [])
AreNumbered-snoc n [] p h e = (omega arith, tt)
AreNumbered-snoc n (x ∷ ps) p h e = (h.0, AreNumbered-snoc (suc n) ps p h.1 (omega arith))
