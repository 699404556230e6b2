-- ===== src/Utilization/Production/Settled.antt =====
-- When the counters and the status of a result agree,
-- chief-of-staff/backend/app/motive/vehicle_utilization_production_ingestion.py.
use polaris_lab.Base.{
  ℕ, ◌+◌, ◌≤◌, ◌&&◌, ltb, ◌==◌, true, length, if◌then◌else◌, ◌≡◌, refl, ◌⊎◌, inl, inr, Bool-cases,
  arith,
}
use polaris_lab.Outcome.{Result, ok, err}
use polaris_lab.Utilization.Writer.Store.{Session}
use polaris_lab.Utilization.Production.Ledger.{success, partial_success, failed}
use polaris_lab.Utilization.Production.Lock.{World}
use polaris_lab.Utilization.Production.Days.{first_progress}
use polaris_lab.Utilization.Production.Balance.{IsTallied}
use polaris_lab.Utilization.Production.Reports.{IngestionResult}

-- The status tells how many of the seven days went through.
abbrev Settles : IngestionResult → Type 0
Settles r =
    ((r.status ≡ success) × (r.tally.windows_completed ≡ 7))
    ⊎ ((r.status ≡ partial_success) × (1 ≤ r.tally.windows_completed) × (1 ≤ r.windows_failed))
    ⊎ ((r.status ≡ failed) × (r.tally.windows_completed ≡ 0))

-- The counters of a result for a table that had `rows` rows and a client that had seen `sent`
-- requests.
pub record IsAccounted (rows sent : ℕ) (r : IngestionResult) (w : World) : Type 0 where
  pub attempted : r.windows_attempted ≡ 7
  pub begun : r.tally.provider_calls_attempted ≡ 7
  pub ended : r.tally.windows_completed + r.windows_failed ≡ 7
  pub failures : length r.failed_units ≡ r.windows_failed
  pub read : r.tally.windows_completed ≤ r.tally.provider_calls_completed
  pub answered : r.tally.provider_calls_completed ≤ 7
  pub recorded :
      r.tally.records_inserted + r.tally.records_unchanged + r.tally.records_updated
      ≡ r.tally.rollups_returned
  pub stored : length w.session.committed ≡ rows + r.tally.records_inserted
  pub requests : w.sent ≤ sent + 7
  pub settled : Settles r

abbrev pub Accounts : ℕ → ℕ → Result IngestionResult × World → Type 0
Accounts rows sent (ok r, w) = IsAccounted rows sent r w
Accounts rows sent (err e, w) = w.sent ≤ sent + 7

pub settles :
    (completed failures : ℕ)
    → completed + failures ≡ 7
    → (let status =
          if completed == 7 && failures == 0
          then success
          else if ltb 0 completed
          then partial_success
          else failed in
        ((status ≡ success) × (completed ≡ 7))
        ⊎ ((status ≡ partial_success) × (1 ≤ completed) × (1 ≤ failures))
        ⊎ ((status ≡ failed) × (completed ≡ 0)))
settles completed failures h = elim (Bool-cases (completed == 7)) [
  | inl all ↦
      let none_failed : (failures == 0) ≡ true = ground arith in
      rw (all, none_failed) (inl (refl, ground arith))
  | inr some_left ↦ elim (Bool-cases (ltb 0 completed)) [
    | inl begun ↦ rw (some_left, begun) (inr (inl (refl, ground arith, ground arith)))
    | inr nothing ↦ rw (some_left, nothing) (inr (inr (refl, ground arith)))
  ]
]

pub first_progress-IsTallied :
    (s : Session) (sent : ℕ)
    → s.working ≡ s.committed
    → IsTallied (length s.committed) sent 0 (first_progress s sent)
first_progress-IsTallied s sent clean = record {
  parts = refl;
  calls = omega arith;
  windows = omega arith;
  recorded = refl;
  stored = omega arith;
  clean = clean;
  requests = omega arith;
}
