-- ===== src/Utilization/Production/Balance.antt =====
-- How the counters of the loop over the days of
-- chief-of-staff/backend/app/motive/vehicle_utilization_production_ingestion.py hang together.
use polaris_lab.Base.{
  ℕ, suc, ◌+◌, ◌≤◌, String, Option, some, List, [], ◌∷◌, length, length-append, ◌≡◌, refl, ap,
  arith,
}
use polaris_lab.Outcome.{
  Exc, connector_error, parse_error, pagination_error, writer_error, reconciliation_error,
  production_error, integrity_error, sqlalchemy_error, unexpected, out_of_fuel, Result, ok, err,
}
use polaris_lab.Python.Value.{Value}
use polaris_lab.Python.Decimal.{Reader}
use polaris_lab.Utilization.Rollup.{Date, Rollup}
use polaris_lab.Utilization.Http.{HttpClient}
use polaris_lab.Utilization.Http.Errors.{Requests, request_page-Requests}
use polaris_lab.Utilization.Writer.{WriteResult, write}
use polaris_lab.Utilization.Writer.Store.{Session, Database, Statement, IsFault}
use polaris_lab.Utilization.Writer.Validate.{Batch}
use polaris_lab.Utilization.Writer.Atomic.{IsAtomic, write-IsAtomic}
use polaris_lab.Utilization.Writer.Accounting.{write-accounts}
use polaris_lab.Utilization.Production.Page.{
  production_query, after_request, read_one_production_page,
}
use polaris_lab.Utilization.Production.Days.{
  Progress, attempt_call, complete_call, fail_day, failing, after_write_day, day_batch,
  after_read_day, run_day, continue, run_days,
}

-- The counters agree with one another, with the table, which had `rows` rows at first, and with the
-- number of requests, which was `sent` at first; `open_days` days were begun and not ended.
pub record IsTallied (rows sent open_days : ℕ) (st : Progress) : Type 0 where
  pub parts :
      st.tally.provider_calls_attempted
      ≡ st.tally.windows_completed + length st.failed_units + open_days
  pub calls : st.tally.provider_calls_completed ≤ st.tally.provider_calls_attempted
  pub windows : st.tally.windows_completed ≤ st.tally.provider_calls_completed
  pub recorded :
      st.tally.records_inserted + st.tally.records_unchanged + st.tally.records_updated
      ≡ st.tally.rollups_returned
  pub stored : length st.session.committed ≡ rows + st.tally.records_inserted
  pub clean : st.session.working ≡ st.session.committed
  pub requests : st.sent ≤ sent + st.tally.provider_calls_attempted

-- So many days were worked through, or fewer when an exception that no handler names ended the loop.
abbrev pub Ran : ℕ → ℕ → ℕ → Progress → Result (Unit {0}) × Progress → Type 0
Ran rows sent days st (ok _, st') =
    IsTallied rows sent 0 st'
    × (st'.tally.provider_calls_attempted ≡ st.tally.provider_calls_attempted + days)
Ran rows sent days st (err e, st') =
    IsTallied rows sent 1 st'
    × (st'.tally.provider_calls_attempted ≤ st.tally.provider_calls_attempted + days)

fail_day-IsTallied :
    (rows sent : ℕ) (day : Date) (code : String) (st : Progress)
    → IsTallied rows sent 1 st
    → IsTallied rows sent 0 (fail_day day code st)
fail_day-IsTallied rows sent day code st h = record {
  parts = omega (
    arith,
    h.parts,
    length-append st.failed_units (record { window = some day; error_code = code } ∷ []),
  );
  calls = h.calls;
  windows = h.windows;
  recorded = h.recorded;
  stored = h.stored;
  clean = h.clean;
  requests = h.requests;
}

failing-Ran :
    (rows sent : ℕ) (day : Date) (st0 st : Progress) (e : Exc)
    → IsTallied rows sent 1 st
    → st.tally.provider_calls_attempted ≡ st0.tally.provider_calls_attempted + 1
    → Ran rows sent 1 st0 (failing day st e)
failing-Ran rows sent day st0 st (connector_error code) h n =
    (fail_day-IsTallied rows sent day code st h, n)
failing-Ran rows sent day st0 st (pagination_error code) h n =
    (fail_day-IsTallied rows sent day code st h, n)
failing-Ran rows sent day st0 st (writer_error code) h n =
    (fail_day-IsTallied rows sent day code st h, n)
failing-Ran rows sent day st0 st (parse_error code) h n = (h, omega (arith, n))
failing-Ran rows sent day st0 st (reconciliation_error code) h n = (h, omega (arith, n))
failing-Ran rows sent day st0 st (production_error code) h n = (h, omega (arith, n))
failing-Ran rows sent day st0 st integrity_error h n = (h, omega (arith, n))
failing-Ran rows sent day st0 st sqlalchemy_error h n = (h, omega (arith, n))
failing-Ran rows sent day st0 st unexpected h n = (h, omega (arith, n))
failing-Ran rows sent day st0 st out_of_fuel h n = (h, omega (arith, n))

module _ (db : Database) (faults : (st : Statement) (s : Session) → IsFault (db.fault st s)) where
  after_write_day-Ran :
      (rows sent : ℕ) (day : Date) (b : Batch) (st0 st : Progress)
      → IsTallied rows sent 1 st
      → st.tally.windows_completed + 1 ≤ st.tally.provider_calls_completed
      → st.tally.provider_calls_attempted ≡ st0.tally.provider_calls_attempted + 1
      → (res : Result WriteResult × Session) → write db b st.session ≡ res
      → IsAtomic db b st.session res
      → Ran rows sent 1 st0 (after_write_day day st res)
  after_write_day-Ran rows sent day b st0 st h done n (ok r, s) e a =
      let acc = write-accounts db b st.session r s e in
      (
        record {
          parts = omega (arith, h.parts);
          calls = h.calls;
          windows = omega (arith, done);
          recorded = omega (arith, h.recorded, acc.1, acc.2);
          stored = omega (arith, h.stored, acc.4, ap length h.clean);
          clean = a.clean;
          requests = h.requests;
        },
        n,
      )
  after_write_day-Ran rows sent day b st0 st h done n (err e', s) e (raised, back) = rw back (
      failing-Ran rows sent day st0 _ e'
        (record {
          parts = h.parts;
          calls = h.calls;
          windows = h.windows;
          recorded = h.recorded;
          stored = h.stored;
          clean = refl;
          requests = h.requests;
        })
        n)

Ran-trans :
    (rows sent days : ℕ) (st st' : Progress) (res : Result (Unit {0}) × Progress)
    → st'.tally.provider_calls_attempted ≡ st.tally.provider_calls_attempted + 1
    → Ran rows sent days st' res
    → Ran rows sent (suc days) st res
Ran-trans rows sent days st st' (err e, end) n h = (h.0, omega (arith, n, h.1))
Ran-trans rows sent days st st' (ok _, end) n h = (h.0, omega (arith, n, h.1))

module _ (decimal : Reader) (client : HttpClient) (api_key : Option String) (db : Database)
    (organization_id slug : String) (ids : List String)
    (faults : (st : Statement) (s : Session) → IsFault (db.fault st s)) where
  after_read_day-Ran :
      (rows sent : ℕ) (day : Date) (st : Progress) (res : Result (List Rollup) × ℕ)
      → IsTallied rows sent 0 st
      → res.1 ≤ suc st.sent
      → Ran rows sent 1 st (
          after_read_day decimal client api_key db organization_id slug ids day
            (record st { tally = attempt_call st.tally })
            res)
  after_read_day-Ran rows sent day st (err e, sent') h le =
      failing-Ran rows sent day st _ e
        (record {
          parts = omega (arith, h.parts);
          calls = omega (arith, h.calls);
          windows = h.windows;
          recorded = h.recorded;
          stored = h.stored;
          clean = h.clean;
          requests = omega (arith, h.requests, le);
        })
        (omega arith)
  after_read_day-Ran rows sent day st (ok rollups, sent') h le =
      let b = day_batch decimal client api_key db organization_id slug ids day rollups in
      after_write_day-Ran db faults rows sent day b st
        (record st { sent = sent'; tally = complete_call (attempt_call st.tally) })
        (record {
          parts = omega (arith, h.parts);
          calls = omega (arith, h.calls);
          windows = omega (arith, h.windows);
          recorded = h.recorded;
          stored = h.stored;
          clean = h.clean;
          requests = omega (arith, h.requests, le);
        })
        (omega (arith, h.windows)) (omega arith) (write db b st.session) refl
        (write-IsAtomic db faults b st.session)

  after_request-sent :
      (day : Date) (sent : ℕ) (res : Result Value × ℕ)
      → Requests client sent res
      → (after_request decimal client api_key organization_id slug ids day res).1 ≤ suc sent
  after_request-sent day sent (ok payload, sent') h = omega (arith, h)
  after_request-sent day sent (err e, sent') h = h.1

  read-sent :
      (day : Date) (sent : ℕ)
      → (read_one_production_page decimal client api_key organization_id slug ids day sent).1
        ≤ suc sent
  unfolding read_one_production_page
  read-sent day sent =
      let q = production_query decimal client api_key organization_id slug ids day in
      after_request-sent day sent _ (request_page-Requests client api_key q 1 sent)

  run_day-Ran :
      (rows sent : ℕ) (day : Date) (st : Progress)
      → IsTallied rows sent 0 st
      → Ran rows sent 1 st (run_day decimal client api_key db organization_id slug ids day st)
  unfolding run_day
  run_day-Ran rows sent day st h = after_read_day-Ran rows sent day st _ h (read-sent day st.sent)

  Ran-continue :
      (rows sent days : ℕ) (st : Progress) (res : Result (Unit {0}) × Progress)
      (next : Progress → Result (Unit {0}) × Progress)
      → Ran rows sent 1 st res
      → ((st' : Progress) → IsTallied rows sent 0 st' → Ran rows sent days st' (next st'))
      → Ran rows sent
          (suc days)
          st
          (continue decimal client api_key db organization_id slug ids next res)
  Ran-continue rows sent days st (err e, st') next h k = (h.0, omega (arith, h.1))
  Ran-continue rows sent days st (ok _, st') next h k =
      Ran-trans rows sent days st st' (next st') h.1 (k st' h.0)

  -- The loop over the days.
  pub run_days-Ran :
      (rows sent : ℕ) (windows : List Date) (st : Progress)
      → IsTallied rows sent 0 st
      → Ran rows sent
          (length windows)
          st
          (run_days decimal client api_key db organization_id slug ids windows st)
  unfolding run_days
  run_days-Ran rows sent [] st h = (h, omega arith)
  run_days-Ran rows sent (day ∷ windows) st h =
      Ran-continue rows sent (length windows) st
        (run_day decimal client api_key db organization_id slug ids day st)
        (run_days decimal client api_key db organization_id slug ids windows)
        (run_day-Ran rows sent day st h) λ st' h'. run_days-Ran rows sent windows st' h'
