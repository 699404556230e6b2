-- ===== src/Utilization/Reconciliation/Units.antt =====
-- The days and the batches that a run of
-- chief-of-staff/backend/app/motive/vehicle_utilization_recent_reconciliation.py works through.
use polaris_lab.Base.{
  ℕ, zero, suc, ◌-◌, ◌≤◌, String, List, [], ◌∷◌, ◌++◌, length, take, drop, All, ◌≡◌, refl, ap, ◌∙◌,
  arith,
}
use polaris_lab.Utilization.Rollup.{Date}
use polaris_lab.Utilization.Reconciliation.Schedule.{
  generate_day_windows, batches_of, batch_provider_vehicle_ids,
}

pub length-generate_day_windows :
    (n : ℕ) (end_date : Date) → length (generate_day_windows n end_date) ≡ n
unfolding generate_day_windows
length-generate_day_windows zero end_date = refl
length-generate_day_windows (suc n) end_date = ap suc (length-generate_day_windows n end_date)

-- So many days in a row.
abbrev pub days_from : Date → ℕ → List Date
days_from first zero = []
days_from first (suc n) = first ∷ days_from (suc first) n

-- The windows of a horizon are its days in a row, from the oldest to the last completed day, when
-- the calendar reaches back that far.
pub windows_days :
    (n : ℕ) (end_date : Date)
    → n ≤ suc end_date
    → generate_day_windows n end_date ≡ days_from (suc end_date - n) n
unfolding generate_day_windows
windows_days zero end_date h = refl
windows_days (suc n) end_date h =
    let below : suc end_date - suc n ≡ end_date - n = omega arith in
    let next : suc end_date - n ≡ suc (end_date - n) = omega (arith, h) in
    rw (below, windows_days n end_date (omega (arith, h)), next) refl

abbrev pub flat : List (List String) → List String
flat [] = []
flat (xs ∷ xss) = xs ++ flat xss

take-drop : (n : ℕ) (xs : List String) → take n xs ++ drop n xs ≡ xs
take-drop zero xs = refl
take-drop (suc n) [] = refl
take-drop (suc n) (x ∷ xs) = ap (λ ys. x ∷ ys) (take-drop n xs)

length-take_le : (n : ℕ) (xs : List String) → length (take n xs) ≤ n
length-take_le zero xs = omega arith
length-take_le (suc n) [] = omega arith
length-take_le (suc n) (x ∷ xs) = omega (arith, length-take_le n xs)

length-drop_le : (n : ℕ) (xs : List String) → length (drop n xs) ≤ length xs
length-drop_le zero xs = omega arith
length-drop_le (suc n) [] = omega arith
length-drop_le (suc n) (x ∷ xs) = omega (arith, length-drop_le n xs)

abbrev pub IsFilled : ℕ → List String → Type 0
IsFilled batch_size batch = (1 ≤ length batch) × (length batch ≤ batch_size)

batches_of-flat :
    (fuel n : ℕ) (ids : List String)
    → length ids ≤ fuel
    → (flat (batches_of fuel (suc n) ids) ≡ ids)
      × All (IsFilled (suc n)) (batches_of fuel (suc n) ids)
unfolding batches_of
batches_of-flat zero n [] h = (refl, tt)
batches_of-flat zero n (id ∷ ids) h = let absurd : ⊥ = omega (arith, h) in elim absurd [ ]
batches_of-flat (suc fuel) n [] h = (refl, tt)
batches_of-flat (suc fuel) n (id ∷ ids) h =
    let rest = batches_of-flat fuel n (drop n ids) (omega (arith, h, length-drop_le n ids)) in
    (
      ap (λ xs. id ∷ take n ids ++ xs) rest.0 ∙ ap (λ xs. id ∷ xs) (take-drop n ids),
      ((omega arith, omega (arith, length-take_le n ids)), rest.1),
    )

-- The batches hold the ids in order, each once, and none is empty or larger than the batch size.
pub batches_flat :
    (ids : List String) (batch_size : ℕ)
    → 1 ≤ batch_size
    → (flat (batch_provider_vehicle_ids ids batch_size) ≡ ids)
      × All (IsFilled batch_size) (batch_provider_vehicle_ids ids batch_size)
unfolding batch_provider_vehicle_ids
batches_flat ids zero h = let absurd : ⊥ = omega (arith, h) in elim absurd [ ]
batches_flat ids (suc n) h = batches_of-flat (length ids) n ids (omega arith)
