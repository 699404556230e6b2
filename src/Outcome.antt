-- ===== src/Outcome.antt =====
-- What a call returns or raises. The exceptions are the classes that the modelled modules define,
-- each with its `code`: MotiveConnectorError (connectors/motive.py), MotiveVehicleUtilizationParseError
-- (connectors/motive_vehicle_utilization.py), MotiveVehicleUtilizationPaginationError
-- (connectors/motive_vehicle_utilization_pagination.py), MotiveVehicleUtilizationWriterError
-- (motive/vehicle_utilization_writer.py), MotiveVehicleUtilizationRecentReconciliationError
-- (motive/vehicle_utilization_recent_reconciliation.py) and
-- MotiveVehicleUtilizationProductionIngestionError
-- (motive/vehicle_utilization_production_ingestion.py), all under chief-of-staff/backend/app.
-- `integrity_error` and `sqlalchemy_error` are the database library's IntegrityError and any other
-- SQLAlchemyError. `unexpected` is any exception that no handler of these modules names, and `out_of_fuel` no
-- exception at all: it marks a loop of the model that was not given enough rounds.
use polaris_lab.Base.{String, if◌then◌else◌, ◌≡◌, refl, Bool, false, arith, ◌⊎◌, inl, inr}

pub data Exc : Type 0 where
  connector_error : String → Exc
  parse_error : String → Exc
  pagination_error : String → Exc
  writer_error : String → Exc
  reconciliation_error : String → Exc
  production_error : String → Exc
  integrity_error : Exc
  sqlalchemy_error : Exc
  unexpected : Exc
  out_of_fuel : Exc

-- A call either raised or returned.
pub data Result {ℓ} (T : Type ℓ) : Type ℓ where
  err : Exc → Result T
  ok : T → Result T

-- `if test: raise e`
abbrev pub raise_if : Bool → Exc → Result (Unit {0})
raise_if test e = if test then err e else ok tt

-- The first exception ends a sequence of calls.
infixl 5 ◌>>=◌ ◌>>◌
abbrev pub ◌>>=◌ {ℓ κ} : {T : Type ℓ} {U : Type κ} → Result T → (T → Result U) → Result U
err e >>= next = err e
ok t >>= next = next t

abbrev pub ◌>>◌ {ℓ} : {U : Type ℓ} → Result (Unit {0}) → Result U → Result U
call >> later = call >>= λ done. later

pub Result-cases {ℓ} :
    {A : Type ℓ} (r : Result A) → ((a : A) × (r ≡ ok a)) ⊎ ((e : Exc) × (r ≡ err e))
Result-cases (ok a) = inl (a, refl)
Result-cases (err e) = inr (e, refl)

pub ok-inj {ℓ} : {A : Type ℓ} {a b : A} → ok a ≡ ok b → a ≡ b
ok-inj h = cc

-- A sequence that returned went through a first call that did.
pub >>=-eq-ok {ℓ κ} :
    {T : Type ℓ} {U : Type κ} (call : Result T) (next : T → Result U) {u : U}
    → call >>= next ≡ ok u
    → (t : T) × (call ≡ ok t) × (next t ≡ ok u)
>>=-eq-ok (err e) next returned = cc
>>=-eq-ok (ok t) next returned = (t, refl, returned)

pub raise_if-eq-ok : (b : Bool) (e : Exc) {u : Unit {0}} → raise_if b e ≡ ok u → b ≡ false
raise_if-eq-ok b e h = ground arith
