-- ===== src/Utilization/Reconciliation/Balance.antt =====
-- How the counters of a run of
-- chief-of-staff/backend/app/motive/vehicle_utilization_recent_reconciliation.py hang together, and the
-- steps of the run on counters alone.
use polaris_lab.Base.{
  ℕ, ◌+◌, ◌≤◌, String, false, [], ◌∷◌, length, length-append, ◌≡◌, refl, arith, inl, inr,
  Bool-cases,
}
use polaris_lab.Outcome.{writer_error, unexpected, Result, ok, err}
use polaris_lab.Utilization.Rollup.{Date}
use polaris_lab.Utilization.Pages.{PaginatedRead}
use polaris_lab.Utilization.Writer.Store.{rollback}
use polaris_lab.Utilization.Reconciliation.{
  State, attempt, count_read, failed_read, after_write, and_then, close_window,
}

-- The counters agree with one another and with the table, which had `rows` rows at first.
pub record IsBalanced (rows : ℕ) (st : State) : Type 0 where
  pub parts :
      st.counters.vehicle_batches_attempted
      ≡ st.counters.vehicle_batches_completed + st.counters.vehicle_batches_failed
  pub failures : length st.counters.failed_units ≡ st.counters.vehicle_batches_failed
  pub calls : st.counters.provider_calls_completed ≤ st.counters.provider_calls_attempted
  pub recorded :
      st.counters.records_inserted + st.counters.records_unchanged + st.counters.records_updated
      ≤ st.counters.rollups_returned
  pub stored : length st.session.committed ≡ rows + st.counters.records_inserted
  pub clean : st.session.working ≡ st.session.committed

-- A step that returned stays balanced, and worked through so many units and windows. One that ended the
-- run did so for `Breaks`, with nothing staged and no row lost.
abbrev pub Works : Type 0 → ℕ → ℕ → ℕ → State → Result (Unit {0}) × State → Type 0
Works Breaks rows units windows st (err e, st') =
    (e ≡ unexpected)
    × Breaks
    × (st'.session.working ≡ st'.session.committed)
    × (rows ≤ length st'.session.committed)
Works Breaks rows units windows st (ok _, st') =
    IsBalanced rows st'
    × (st'.counters.vehicle_batches_attempted ≡ st.counters.vehicle_batches_attempted + units)
    × (st'.counters.windows_completed + st'.counters.windows_failed
        ≡ st.counters.windows_completed + st.counters.windows_failed + windows)

Works-trans :
    (Breaks : Type 0) (rows u v w x : ℕ) (st st' : State) (r : Result (Unit {0}) × State)
    → st'.counters.vehicle_batches_attempted ≡ st.counters.vehicle_batches_attempted + u
    → st'.counters.windows_completed + st'.counters.windows_failed
      ≡ st.counters.windows_completed + st.counters.windows_failed + w
    → Works Breaks rows v x st' r
    → Works Breaks rows (u + v) (w + x) st r
Works-trans Breaks rows u v w x st st' (ok _, end) a b h =
    (h.0, omega (arith, h.1), omega (arith, h.2))
Works-trans Breaks rows u v w x st st' (err e, end) a b h = h

pub and_then-Works :
    (Breaks : Type 0) (rows u v w x : ℕ) {m n : ℕ} (st : State) (r : Result (Unit {0}) × State)
    (next : State → Result (Unit {0}) × State)
    → m ≡ u + v
    → n ≡ w + x
    → Works Breaks rows u w st r
    → ((st' : State) → IsBalanced rows st' → Works Breaks rows v x st' (next st'))
    → Works Breaks rows m n st (and_then r next)
and_then-Works Breaks rows u v w x st (ok _, st') next p q h k =
    rw (p, q) (Works-trans Breaks rows u v w x st st' (next st') h.1 h.2 (k st' h.0))
and_then-Works Breaks rows u v w x st (err e, st') next p q h k = h

pub close_window-Works :
    (Breaks : Type 0) (rows : ℕ) (st : State)
    → IsBalanced rows st
    → Works Breaks rows 0 1 st (close_window st)
close_window-Works Breaks rows st b = elim (Bool-cases st.window_had_failure) [
  | inl h ↦ rw h (
    record {
      parts = b.parts;
      failures = b.failures;
      calls = b.calls;
      recorded = b.recorded;
      stored = b.stored;
      clean = b.clean;
    },
    omega arith,
    omega arith,
  )
  | inr h ↦ rw h (
    record {
      parts = b.parts;
      failures = b.failures;
      calls = b.calls;
      recorded = b.recorded;
      stored = b.stored;
      clean = b.clean;
    },
    omega arith,
    omega arith,
  )
]

-- A unit whose read failed.
pub failed-Works :
    (Breaks : Type 0) (rows sent : ℕ) (day : Date) (o : ℕ) (code : String) (st : State)
    → IsBalanced rows st
    → Works Breaks rows 1 0 st
        (ok tt, failed_read day o code (record st { counters = attempt st.counters; sent = sent }))
failed-Works Breaks rows sent day o code st b = (
  record {
    parts = omega (arith, b.parts);
    failures = omega (
      arith,
      b.failures,
      length-append st.counters.failed_units (
          record { window_start = day; window_end = day; batch_ordinal = o; error_code = code }
          ∷ []),
    );
    calls = omega (arith, b.calls);
    recorded = b.recorded;
    stored = b.stored;
    clean = b.clean;
  },
  omega arith,
  omega arith,
)

-- A unit whose write failed and was rolled back.
pub failed_write-Works :
    (Breaks : Type 0) (rows sent : ℕ) (day : Date) (o : ℕ) (code : String) (out : PaginatedRead)
    (st : State)
    → IsBalanced rows st
    → Works Breaks rows 1 0 st (
        after_write day o
          (record st { sent = sent; counters = count_read out (attempt st.counters) })
          (err (writer_error code), rollback st.session))
failed_write-Works Breaks rows sent day o code out st b = (
  record {
    parts = omega (arith, b.parts);
    failures = omega (
      arith,
      b.failures,
      length-append st.counters.failed_units (
          record { window_start = day; window_end = day; batch_ordinal = o; error_code = code }
          ∷ []),
    );
    calls = omega (arith, b.calls);
    recorded = omega (arith, b.recorded);
    stored = b.stored;
    clean = refl;
  },
  omega arith,
  omega arith,
)

pub unset :
    (rows : ℕ) (st : State)
    → IsBalanced rows st
    → IsBalanced rows (record st { window_had_failure = false })
unset rows st b = record {
  parts = b.parts;
  failures = b.failures;
  calls = b.calls;
  recorded = b.recorded;
  stored = b.stored;
  clean = b.clean;
}
