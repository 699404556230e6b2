-- ===== src/Utilization/Production/Eligible.antt =====
-- The vehicles of a run of
-- chief-of-staff/backend/app/motive/vehicle_utilization_production_ingestion.py.
use polaris_lab.Base.{
  ℕ, zero, suc, ◌≤◌, String, false, not, List, [], ◌∷◌, length, take, ltb, ◌==◌, Nodup, All, ◌≡◌,
  refl, sym, ◌∙◌, ap, ltb-false, le→ltb, arith,
}
use polaris_lab.Outcome.{ok, raise_if, ok-inj, >>=-eq-ok, raise_if-eq-ok}
use polaris_lab.Python.Text.{strip, is_empty}
use polaris_lab.Utilization.Writer.Store.{VehicleRecord}
use polaris_lab.Utilization.Reconciliation.Schedule.{select_tenant_vehicles, provider_ids}
use polaris_lab.Utilization.Production.Select.{
  stored_ids, as_set, checked_ids, select_provider_vehicle_ids,
}

abbrev pub IsWritten : String → Type 0
IsWritten id = is_empty (strip id) ≡ false

stored_ids-AreWritten :
    (rows : List VehicleRecord) (ids : List String)
    → stored_ids rows ≡ ok ids
    → (ids ≡ provider_ids rows) × All IsWritten (provider_ids rows)
unfolding stored_ids
stored_ids-AreWritten [] ids h = ground arith
stored_ids-AreWritten (row ∷ rows) ids h =
    let (u, tested, rest) = >>=-eq-ok (raise_if (is_empty (strip row.provider_vehicle_id)) _) _ h in
    let (later, found, same) = >>=-eq-ok (stored_ids rows) _ rest in
    let below = stored_ids-AreWritten rows later found in
    (
      sym (ok-inj same) ∙ ap (λ others. row.provider_vehicle_id ∷ others) below.0,
      (raise_if-eq-ok _ _ tested, below.1),
    )

stored_ids_whole :
    (rows : List VehicleRecord)
    → All IsWritten (provider_ids rows)
    → stored_ids rows ≡ ok (provider_ids rows)
unfolding stored_ids
stored_ids_whole [] h = refl
stored_ids_whole (row ∷ rows) h = rw (h.0, stored_ids_whole rows h.1) refl

length-as_set_le : (ids : List String) → length (as_set ids) ≤ length ids
length-as_set_le [] = omega arith
length-as_set_le (id ∷ ids) = ground (arith, length-as_set_le ids)

-- A set as large as the list leaves no repetition in the list.
as_set-Nodup : (ids : List String) → length (as_set ids) ≡ length ids → Nodup ids
as_set-Nodup [] h = tt
as_set-Nodup (id ∷ ids) h = ground (arith, length-as_set_le ids, as_set-Nodup ids)

Nodup-as_set : (ids : List String) → Nodup ids → as_set ids ≡ ids
Nodup-as_set [] h = refl
Nodup-as_set (id ∷ ids) h = rw h.0 (ap (λ rest. id ∷ rest) (Nodup-as_set ids h.1))

-- One row more than the limit shows whether there are more.
take_all :
    (n : ℕ) (rows : List VehicleRecord) → length (take (suc n) rows) ≤ n → take (suc n) rows ≡ rows
take_all n [] h = refl
take_all zero (row ∷ rows) h = absurd (omega (arith, h))
take_all (suc n) (row ∷ rows) h = ap (λ rest. row ∷ rest) (take_all n rows (omega (arith, h)))

take_few : (n : ℕ) (rows : List VehicleRecord) → length rows ≤ n → take (suc n) rows ≡ rows
take_few n [] h = refl
take_few zero (row ∷ rows) h = absurd (omega (arith, h))
take_few (suc n) (row ∷ rows) h = ap (λ rest. row ∷ rest) (take_few n rows (omega (arith, h)))

length-provider_ids : (rows : List VehicleRecord) → length (provider_ids rows) ≡ length rows
length-provider_ids [] = refl
length-provider_ids (row ∷ rows) = ap suc (length-provider_ids rows)

-- Between one and a hundred vehicles, with distinct ids that are not blank.
pub record IsEligible (ids : List String) : Type 0 where
  pub some_vehicle : 1 ≤ length ids
  pub few : length ids ≤ 100
  pub written : All IsWritten ids
  pub distinct : Nodup ids

checked_ids-IsEligible :
    (rows : List VehicleRecord) (ids : List String)
    → checked_ids rows ≡ ok ids
    → (ids ≡ provider_ids rows) × IsEligible ids
unfolding checked_ids
checked_ids-IsEligible [] ids h = cc
checked_ids-IsEligible (row ∷ rows) ids h =
    let (u, many, rest) = >>=-eq-ok (raise_if (ltb 100 (length (row ∷ rows))) _) _ h in
    let (found, reads, rest') = >>=-eq-ok (stored_ids (row ∷ rows)) _ rest in
    let (v, twice, same) =
      >>=-eq-ok (raise_if (not (length (as_set found) == length found)) _) _ rest' in
    let of_rows = stored_ids-AreWritten (row ∷ rows) found reads in
    let size = length-provider_ids (row ∷ rows) in
    let once = raise_if-eq-ok _ _ twice in
    let limit = raise_if-eq-ok _ _ many in
    rw (← ok-inj same) (
      of_rows.0,
      record {
        some_vehicle = omega (arith, ap length of_rows.0, size);
        few = omega (arith, ap length of_rows.0, size, ltb-false 100 (length (row ∷ rows)) limit);
        written = rw of_rows.0 of_rows.1;
        distinct = as_set-Nodup found (ground arith);
      },
    )

-- A selection that returned holds the ids of all the tenant's vehicles, in the order of their rows,
-- and they are between one and a hundred, not blank and distinct.
pub select-IsEligible :
    (organization_id : String) (vehicles : List VehicleRecord) (ids : List String)
    → select_provider_vehicle_ids organization_id vehicles ≡ ok ids
    → (ids ≡ provider_ids (select_tenant_vehicles organization_id vehicles)) × IsEligible ids
unfolding select_provider_vehicle_ids
select-IsEligible organization_id vehicles ids h =
    let rows = select_tenant_vehicles organization_id vehicles in
    let checked = checked_ids-IsEligible (take 101 rows) ids h in
    let size : length (take 101 rows) ≤ 100 =
      omega (arith, checked.1.few, ap length checked.0, length-provider_ids (take 101 rows)) in
    (checked.0 ∙ ap provider_ids (take_all 100 rows size), checked.1)

checked_ids_whole :
    (rows : List VehicleRecord)
    → IsEligible (provider_ids rows)
    → checked_ids rows ≡ ok (provider_ids rows)
unfolding checked_ids
checked_ids_whole [] h = absurd (omega (arith, h.some_vehicle))
checked_ids_whole (row ∷ rows) h =
    let size = length-provider_ids (row ∷ rows) in
    let few : ltb 100 (length (row ∷ rows)) ≡ false =
      le→ltb 100 (length (row ∷ rows)) (omega (arith, h.few, size)) in
    rw
      (
        few,
        stored_ids_whole (row ∷ rows) h.written,
        Nodup-as_set (provider_ids (row ∷ rows)) h.distinct,
      )
      (ground arith)

-- Every fleet of between one and a hundred vehicles with distinct ids that are not blank is selected
-- whole.
pub select_whole :
    (organization_id : String) (vehicles : List VehicleRecord)
    → IsEligible (provider_ids (select_tenant_vehicles organization_id vehicles))
    → select_provider_vehicle_ids organization_id vehicles
      ≡ ok (provider_ids (select_tenant_vehicles organization_id vehicles))
unfolding select_provider_vehicle_ids
select_whole organization_id vehicles h =
    let rows = select_tenant_vehicles organization_id vehicles in
    let size : length rows ≤ 100 = omega (arith, h.few, length-provider_ids rows) in
    rw (take_few 100 rows size) (checked_ids_whole rows h)
