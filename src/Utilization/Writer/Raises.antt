-- ===== src/Utilization/Writer/Raises.antt =====
-- Which exceptions the steps of
-- chief-of-staff/backend/app/motive/vehicle_utilization_writer.py raise.
use polaris_lab.Base.{ℕ, String, Option, none, some, List, [], ◌∷◌, ◌++◌, arith}
use polaris_lab.Outcome.{Exc, writer_error, Result, ok, err, ◌>>=◌, ◌>>◌, Result-cases}
use polaris_lab.Utilization.Rollup.{Date, Metrics, Rollup}
use polaris_lab.Utilization.Writer.{raise_fault, query, prepare}
use polaris_lab.Utilization.Writer.Store.{
  VehicleRecord, Row, Session, Database, Field, Statement, vehicle_query, row_query, flush, commit,
  IsFault,
}
use polaris_lab.Utilization.Writer.Validate.{
  Batch, for_each, validate_request_context, normalize_ids, some_selected,
  validate_selected_vehicle_ids, validate_rollup_structure, validate_rollup_organization_context,
  check_window, validate_rollup_request_window, validate_no_duplicates, validate_returned_vehicle,
  validate_unit_context, validate_parser_and_source, validate_batch,
}
use polaris_lab.Utilization.Writer.Plan.{
  vehicle_for, known_vehicle, resolve_tenant_vehicles, field_changes, compute_mutable_field_changes,
  WritePlan, candidate_fields, empty_plan, decide_row, plan_writes, existing_row, key_of,
}

-- The exceptions that the writer raises itself, and the database library's.
abbrev pub IsRaised : Exc → Type 0
IsRaised (writer_error code) = Unit
IsRaised e = IsFault (some e)

abbrev pub Raises {ℓ} : {A : Type ℓ} → Result A → Type 0
Raises (ok a) = Unit
Raises (err e) = IsRaised e

Raises-bind {ℓ κ} :
    {A : Type ℓ} {B : Type κ} (m : Result A) (f : A → Result B)
    → Raises m
    → ((a : A) → Raises (f a))
    → Raises (m >>= f)
Raises-bind (ok a) f h k = k a
Raises-bind (err e) f h k = h

Raises-for_each {ℓ} :
    {A : Type ℓ} (check : A → Result (Unit {0})) (xs : List A)
    → ((x : A) → Raises (check x))
    → Raises (for_each check xs)
unfolding for_each
Raises-for_each check [] h = tt
Raises-for_each check (x ∷ xs) h =
    Raises-bind (check x) (λ _. for_each check xs) (h x) (λ _. Raises-for_each check xs h)

some_selected-Raises : (ids : List String) → Raises (some_selected ids)
some_selected-Raises [] = tt
some_selected-Raises (id ∷ ids) = tt

check_window-Raises : (a b : Date) (c d : Option Date) → Raises (check_window a b c d)
check_window-Raises a b none d = tt
check_window-Raises a b (some c) none = tt
check_window-Raises a b (some c) (some d) = ground arith

normalize_ids-Raises : (seen ids : List String) → Raises (normalize_ids seen ids)
unfolding normalize_ids
normalize_ids-Raises seen [] = tt
normalize_ids-Raises seen (x ∷ ids) = ground (arith, normalize_ids-Raises (seen ++ x ∷ []) ids)

validate_no_duplicates-Raises :
    (seen : List String) (rs : List Rollup) → Raises (validate_no_duplicates seen rs)
unfolding validate_no_duplicates
validate_no_duplicates-Raises seen [] = tt
validate_no_duplicates-Raises seen (r ∷ rs) =
    ground (arith, validate_no_duplicates-Raises (seen ++ r.provider_vehicle_id ∷ []) rs)

validate_batch-Raises : (b : Batch) → Raises (validate_batch b)
unfolding validate_batch validate_request_context validate_selected_vehicle_ids
    validate_rollup_structure validate_rollup_organization_context validate_rollup_request_window
    validate_returned_vehicle validate_unit_context validate_parser_and_source
validate_batch-Raises b =
    Raises-bind
      (validate_request_context b.organization_id b.organization_slug b.request_window_start
        b.request_window_end)
      _ (ground arith)
      λ _.
        Raises-bind (validate_selected_vehicle_ids b.selected_provider_vehicle_ids) _
          (Raises-bind (normalize_ids [] b.selected_provider_vehicle_ids) some_selected
            (normalize_ids-Raises [] b.selected_provider_vehicle_ids) some_selected-Raises)
          λ selected.
            Raises-bind (for_each validate_rollup_structure b.rollups) _
              (Raises-for_each validate_rollup_structure b.rollups λ r. ground arith)
              λ _.
                Raises-bind
                  (for_each
                    (validate_rollup_organization_context b.organization_id b.organization_slug)
                    b.rollups)
                  _ (Raises-for_each _ b.rollups λ r. ground arith)
                  λ _.
                    Raises-bind
                      (for_each
                        (validate_rollup_request_window b.request_window_start b.request_window_end)
                        b.rollups)
                      _
                      (Raises-for_each _ b.rollups λ r.
                        check_window-Raises b.request_window_start b.request_window_end
                          r.request_start_date r.request_end_date)
                      λ _.
                        Raises-bind (validate_no_duplicates [] b.rollups) _
                          (validate_no_duplicates-Raises [] b.rollups)
                          λ _.
                            Raises-bind (for_each (validate_returned_vehicle selected) b.rollups) _
                              (Raises-for_each _ b.rollups λ r. ground arith)
                              λ _.
                                Raises-bind
                                  (for_each (validate_unit_context b.unit_request_mode) b.rollups) _
                                  (Raises-for_each _ b.rollups λ r. ground arith)
                                  λ _.
                                    Raises-bind (for_each validate_parser_and_source b.rollups) _
                                      (Raises-for_each validate_parser_and_source b.rollups
                                        λ r. ground arith)
                                      λ _. tt

known_vehicle-Raises : (o : Option ℕ) → Raises (known_vehicle o)
known_vehicle-Raises none = tt
known_vehicle-Raises (some id) = tt

resolve-Raises :
    (organization_id : String) (vs : List VehicleRecord) (rs : List Rollup)
    → Raises (resolve_tenant_vehicles organization_id vs rs)
unfolding resolve_tenant_vehicles
resolve-Raises o vs [] = tt
resolve-Raises o vs (r ∷ rs) =
    Raises-bind (known_vehicle (vehicle_for o r.provider_vehicle_id vs)) _
      (known_vehicle-Raises (vehicle_for o r.provider_vehicle_id vs))
      λ id. Raises-bind (resolve_tenant_vehicles o vs rs) _ (resolve-Raises o vs rs) λ _. tt

field_changes-Raises : (fs : List Field) (a b : Metrics) → Raises (field_changes fs a b)
unfolding field_changes
field_changes-Raises [] a b = tt
field_changes-Raises (f ∷ fs) a b =
    ground (arith, field_changes-Raises fs a b, Result-cases (field_changes fs a b))

module _ (organization_id slug : String) (rows : List Row) where
  decide_row-Raises :
      (plan : WritePlan) (r : Rollup) (id : ℕ) (found : Option Row)
      → Raises (decide_row organization_id slug rows plan r id found)
  unfolding compute_mutable_field_changes
  decide_row-Raises plan r id none = tt
  decide_row-Raises plan r id (some row) = ground (
    arith,
    field_changes-Raises candidate_fields row.value.metrics r.metrics,
    Result-cases (field_changes candidate_fields row.value.metrics r.metrics),
  )

  plan_writes-Raises :
      (plan : WritePlan) (resolved : List (Rollup × ℕ))
      → Raises (plan_writes organization_id slug rows plan resolved)
  unfolding plan_writes
  plan_writes-Raises plan [] = tt
  plan_writes-Raises plan ((r, id) ∷ rest) =
      Raises-bind
        (decide_row organization_id slug rows plan r id
          (existing_row (key_of organization_id slug rows r id) rows))
        _ (decide_row-Raises plan r id (existing_row (key_of organization_id slug rows r id) rows))
        λ plan'. plan_writes-Raises plan' rest

IsFault-IsRaised : (e : Exc) → IsFault (some e) → IsRaised e
IsFault-IsRaised e h = ground arith

module _ (db : Database) (faults : (st : Statement) (s : Session) → IsFault (db.fault st s)) where
  raise_fault-Raises : (o : Option Exc) → IsFault o → Raises (raise_fault o)
  raise_fault-Raises none h = tt
  raise_fault-Raises (some e) h = IsFault-IsRaised e h

  query-Raises : (st : Statement) (s : Session) (rs : List Rollup) → Raises (query db st s rs)
  query-Raises st s [] = tt
  query-Raises st s (r ∷ rs) = raise_fault-Raises (db.fault st s) (faults st s)

  pub prepare-Raises : (b : Batch) (s : Session) → Raises (prepare db b s)
  unfolding prepare
  prepare-Raises b s = Raises-bind (validate_batch b) _ (validate_batch-Raises b) λ selected.
      Raises-bind (query db vehicle_query s b.rollups) _ (query-Raises vehicle_query s b.rollups)
        λ _.
          Raises-bind (resolve_tenant_vehicles b.organization_id s.vehicles b.rollups) _
            (resolve-Raises b.organization_id s.vehicles b.rollups)
            λ resolved.
              Raises-bind (query db row_query s b.rollups) _ (query-Raises row_query s b.rollups)
                λ _.
                  Raises-bind
                    (plan_writes b.organization_id b.organization_slug s.working empty_plan
                      resolved)
                    _
                    (plan_writes-Raises b.organization_id b.organization_slug s.working empty_plan
                      resolved)
                    λ _. tt

  pub save-Raises :
      (s : Session) → Raises (raise_fault (db.fault flush s) >> raise_fault (db.fault commit s))
  save-Raises s =
      Raises-bind (raise_fault (db.fault flush s)) _
        (raise_fault-Raises (db.fault flush s) (faults flush s))
        λ _. raise_fault-Raises (db.fault commit s) (faults commit s)
