-- ===== src/Dispatch/Served.antt =====
-- A connector that serves a run of chief-of-staff/backend/app/connectors/torqueai_ingestion.py, and how many
-- pages its total takes.
use native.Mathlib.Nat.{div-eq_of_lt-le}
use polaris_lab.Base.{
  le→ltb, ◌/◌, ◌⊎◌, inl, inr, Bool-cases, ℕ, zero, suc, ◌+◌, ◌-◌, ◌*◌, ◌≤◌, false, List, [], ◌∷◌,
  length, ◌==◌, ◌≡◌, refl, arith,
}
use polaris_lab.Dispatch.Call.{returned}
use polaris_lab.Dispatch.Connector.{DispatchPage}
use polaris_lab.Dispatch.Normalize.{NormalizedDispatch}
use polaris_lab.Dispatch.Persist.{torqueai_ingest_page_size}
use polaris_lab.Dispatch.Fetch.{page_count, contract_changed, Fetched, Connector, validate_range}

pub pred_lem : (n : ℕ) → suc n - 1 ≡ n
pred_lem n = omega arith

pub window_fits : (a b : ℕ) → a ≤ b → b - a + 1 ≤ 7 → validate_range a b ≡ returned tt
window_fits a b h k = rw (le→ltb b a h, le→ltb 7 (b - a + 1) k) refl

-- The last of `suc more` pages of that size is the one on which the total ends.
abbrev AreNeeded : ℕ → ℕ → ℕ → Type 0
AreNeeded more size total = (total ≤ suc more * size) × ((more ≡ 0) ⊎ (suc (more * size) ≤ total))

ceil_lem :
    (more size total : ℕ)
    → 1 ≤ size
    → 1 ≤ total
    → AreNeeded more size total
    → (total + size - 1) / size ≡ suc more
ceil_lem more size total low some_there needed = div-eq_of_lt-le size (grind arith) (grind arith)

pub page_count_lem :
    (more size total : ℕ) → 1 ≤ size → AreNeeded more size total → page_count total size ≡ suc more
page_count_lem more size total low needed = elim (Bool-cases (total == 0)) [
  | inl e ↦ grind arith
  | inr e ↦ rw e (ceil_lem more size total low (ground arith) needed)
]

-- `count` pages from number `n` on.
abbrev pub pages_from : (ℕ → DispatchPage) → ℕ → ℕ → List DispatchPage
pages_from pages zero n = []
pages_from pages (suc count) n = pages n ∷ pages_from pages count (suc n)

-- A connector that answers the pages up to `suc more`, which agree on a total and a size within the bounds
-- of a run, and are all that the total takes.
pub record IsServed (fetch : Connector) (date_from date_to : ℕ) (pages : ℕ → DispatchPage)
    (more : ℕ) : Type 0 where
  pub answers :
      (sent n : ℕ)
      → 1 ≤ n
      → n ≤ suc more
      → (fetch sent date_from date_to n torqueai_ingest_page_size).0 ≡ returned (pages n)
  pub agrees : (n : ℕ) → 1 ≤ n → n ≤ suc more → contract_changed (pages 1) (pages n) ≡ false
  pub sized : 1 ≤ (pages 1).items_per_page
  pub small : (pages 1).total_count ≤ 1000
  pub needed : AreNeeded more (pages 1).items_per_page (pages 1).total_count
  pub few : more ≤ 9

-- All pages are fetched, and the records let through.
pub record IsFull (count : ℕ) (items : List NormalizedDispatch) (f : Fetched) : Type 0 where
  pub gives : f.items ≡ returned items
  pub pages : f.progress.pages_fetched ≡ count
  pub validated : f.progress.rows_validated ≡ length items
