-- ===== src/Utilization/Reconciliation/Counts.antt =====
-- The counters of a run of
-- chief-of-staff/backend/app/motive/vehicle_utilization_recent_reconciliation.py, through the reader and
-- the writer.
use native.Mathlib.Nat.{suc-mul}
use polaris_lab.Base.{
  ℕ, ◌+◌, ◌*◌, String, false, Option, List, [], ◌∷◌, length, ◌≡◌, refl, ap, arith,
}
use polaris_lab.Outcome.{
  connector_error, parse_error, pagination_error, writer_error, reconciliation_error,
  production_error, integrity_error, sqlalchemy_error, unexpected, out_of_fuel, Result, ok, err,
}
use polaris_lab.Python.Decimal.{Reader}
use polaris_lab.Utilization.Rollup.{Date}
use polaris_lab.Utilization.Http.{HttpClient}
use polaris_lab.Utilization.Pages.{PaginatedRead, read_vehicle_utilization_pages}
use polaris_lab.Utilization.Pages.Loop.{Ends, IsEndError}
use polaris_lab.Utilization.Pages.Read.{read-Ends}
use polaris_lab.Utilization.Writer.{WriteResult, write}
use polaris_lab.Utilization.Writer.Store.{Session, Database, Statement, IsFault}
use polaris_lab.Utilization.Writer.Validate.{Batch}
use polaris_lab.Utilization.Writer.Atomic.{IsAtomic, write-IsAtomic}
use polaris_lab.Utilization.Writer.Accounting.{write-accounts}
use polaris_lab.Utilization.Reconciliation.{
  State, attempt, count_read, after_write, and_then, close_window, query_of, batch_of, after_read,
  run_unit, run_batches, run_windows,
}
use polaris_lab.Utilization.Reconciliation.Balance.{
  IsBalanced, Works, and_then-Works, close_window-Works, failed-Works, failed_write-Works, unset,
}

module _ (db : Database) (faults : (st : Statement) (s : Session) → IsFault (db.fault st s)) where
  after_write-Works :
      (Breaks : Type 0) (rows sent : ℕ) (day : Date) (o : ℕ) (out : PaginatedRead) (b : Batch)
      (st : State)
      → b.rollups ≡ out.rollups
      → IsBalanced rows st
      → (res : Result WriteResult × Session) → write db b st.session ≡ res
      → IsAtomic db b st.session res
      → Works Breaks rows 1 0 st (
          after_write day o
            (record st { sent = sent; counters = count_read out (attempt st.counters) })
            res)
  after_write-Works Breaks rows sent day o out b st same h (ok w, s) e a =
      let acc = write-accounts db b st.session w s e in
      (
        record {
          parts = omega (arith, h.parts);
          failures = h.failures;
          calls = omega (arith, h.calls);
          recorded = omega (arith, h.recorded, acc.2, ap length same);
          stored = omega (arith, h.stored, acc.4, ap length h.clean);
          clean = a.clean;
        },
        omega arith,
        omega arith,
      )
  after_write-Works Breaks rows sent day o out b st same h (err e', s) e ((code, c), back) =
      rw (c, back) (failed_write-Works Breaks rows sent day o code out st h)

module _ (decimal : Reader) (client : HttpClient) (api_key : Option String) (db : Database)
    (organization_id slug : String) where
  -- A read of some unit raised what the client itself raised, or overflowed.
  abbrev pub Breaks : Type 0
  Breaks =
      (day : Date) × (batch : List String) × IsEndError decimal
        (query_of decimal client api_key db organization_id slug day batch) client api_key
        unexpected

module _ (decimal : Reader) (client : HttpClient) (api_key : Option String) (db : Database)
    (organization_id slug : String)
    (faults : (st : Statement) (s : Session) → IsFault (db.fault st s)) where
  after_read-Works :
      (rows : ℕ) (day : Date) (o : ℕ) (batch : List String) (st : State)
      (res : Result PaginatedRead × ℕ)
      → IsBalanced rows st
      → Ends decimal
          (query_of decimal client api_key db organization_id slug day batch)
          client
          api_key
          st.sent
          res
      → Works (Breaks decimal client api_key db organization_id slug) rows 1 0 st (
          after_read decimal client api_key db organization_id slug day o batch
            (record st { counters = attempt st.counters })
            res)
  after_read-Works rows day o batch st (ok out, sent) b h =
      let todo = batch_of decimal client api_key db organization_id slug day batch out in
      after_write-Works db faults (Breaks decimal client api_key db organization_id slug) rows sent
        day o out todo st refl b (write db todo st.session) refl
        (write-IsAtomic db faults todo st.session)
  after_read-Works rows day o batch st (err (connector_error code), sent) b h =
      failed-Works (Breaks decimal client api_key db organization_id slug) rows sent day o code st b
  after_read-Works rows day o batch st (err (pagination_error code), sent) b h =
      failed-Works (Breaks decimal client api_key db organization_id slug) rows sent day o code st b
  after_read-Works rows day o batch st (err unexpected, sent) b h =
      (refl, (day, batch, h.0), b.clean, omega (arith, b.stored))
  after_read-Works rows day o batch st (err (parse_error _), sent) b h = elim h.0 [ ]
  after_read-Works rows day o batch st (err (writer_error _), sent) b h = elim h.0 [ ]
  after_read-Works rows day o batch st (err (reconciliation_error _), sent) b h = elim h.0 [ ]
  after_read-Works rows day o batch st (err (production_error _), sent) b h = elim h.0 [ ]
  after_read-Works rows day o batch st (err integrity_error, sent) b h = elim h.0 [ ]
  after_read-Works rows day o batch st (err sqlalchemy_error, sent) b h = elim h.0 [ ]
  after_read-Works rows day o batch st (err out_of_fuel, sent) b h = elim h.0 [ ]

  run_unit-Works :
      (rows : ℕ) (day : Date) (o : ℕ) (batch : List String) (st : State)
      → IsBalanced rows st
      → Works
          (Breaks decimal client api_key db organization_id slug)
          rows
          1
          0
          st
          (run_unit decimal client api_key db organization_id slug day o batch st)
  unfolding run_unit
  run_unit-Works rows day o batch st b =
      let q = query_of decimal client api_key db organization_id slug day batch in
      after_read-Works rows day o batch st
        (read_vehicle_utilization_pages decimal client api_key q st.sent) b
        (read-Ends decimal client api_key q st.sent)

  run_batches-Works :
      (rows : ℕ) (day : Date) (o : ℕ) (batches : List (List String)) (st : State)
      → IsBalanced rows st
      → Works
          (Breaks decimal client api_key db organization_id slug)
          rows
          (length batches)
          0
          st
          (run_batches decimal client api_key db organization_id slug day o batches st)
  unfolding run_batches
  run_batches-Works rows day o [] st b = (b, omega arith, omega arith)
  run_batches-Works rows day o (batch ∷ batches) st b =
      and_then-Works (Breaks decimal client api_key db organization_id slug) rows 1 (length batches)
        0 0 st (run_unit decimal client api_key db organization_id slug day o batch st) _
        (omega arith) (omega arith) (run_unit-Works rows day o batch st b)
        λ st' b'. run_batches-Works rows day (o + 1) batches st' b'

  run_window-Works :
      (rows : ℕ) (day : Date) (batches : List (List String)) (st : State)
      → IsBalanced rows st
      → Works (Breaks decimal client api_key db organization_id slug) rows (length batches) 1 st (
          and_then
            (run_batches decimal client api_key db organization_id slug day 1 batches
              (record st { window_had_failure = false }))
            close_window)
  run_window-Works rows day batches st b =
      and_then-Works (Breaks decimal client api_key db organization_id slug) rows (length batches) 0
        0 1 st
        (run_batches decimal client api_key db organization_id slug day 1 batches
          (record st { window_had_failure = false }))
        close_window (omega arith) (omega arith)
        (run_batches-Works rows day 1 batches (record st { window_had_failure = false })
          (unset rows st b))
        λ st' b'.
          close_window-Works (Breaks decimal client api_key db organization_id slug) rows st' b'

  pub run_windows-Works :
      (rows : ℕ) (windows : List Date) (batches : List (List String)) (st : State)
      → IsBalanced rows st
      → Works
          (Breaks decimal client api_key db organization_id slug)
          rows
          (length windows * length batches)
          (length windows)
          st
          (run_windows decimal client api_key db organization_id slug windows batches st)
  unfolding run_windows
  run_windows-Works rows [] batches st b = (b, omega arith, omega arith)
  run_windows-Works rows (day ∷ windows) batches st b =
      and_then-Works (Breaks decimal client api_key db organization_id slug) rows (length batches)
        (length windows * length batches) 1 (length windows) st
        (and_then
          (run_batches decimal client api_key db organization_id slug day 1 batches
            (record st { window_had_failure = false }))
          close_window)
        _ (omega (arith, suc-mul (length windows) (length batches))) (omega arith)
        (run_window-Works rows day batches st b)
        λ st' b'. run_windows-Works rows windows batches st' b'
