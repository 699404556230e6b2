-- ===== src/Utilization/Production/Leaked.antt =====
-- The process lock that a run of
-- chief-of-staff/backend/app/motive/vehicle_utilization_production_ingestion.py leaves taken for good.
use polaris_lab.Base.{
  ℕ, String, true, false, Option, some, List, [], ◌∷◌, contains, str_eq_refl, ◌≡◌, refl, ◌∙◌, ap,
  inl, inr, Option-cases, arith,
}
use polaris_lab.Outcome.{Exc, Result, ok, err}
use polaris_lab.Utilization.Rollup.{Date}
use polaris_lab.Utilization.Production.Ledger.{open_session, lock_rollback, lock_close}
use polaris_lab.Utilization.Production.Lock.{
  World, already_in_progress, with_run_lock, finish, release,
}
use polaris_lab.Utilization.Production.Exclusion.{with_run_lock-ends}
use polaris_lab.Utilization.Production.Reports.{IngestionResult}
use polaris_lab.Utilization.Production.Held.{held_after, ingest-held, release_own}
use polaris_lab.Utilization.Production.{Services, ingest, check_context, after_context, run}

-- The arguments of a run, and the services and the switch at its time.
pub record RunCall : Type 0 where
  pub services : Services
  pub organization_id : String
  pub organization_slug : String
  pub last_day : Date
  pub started_at : ℕ
  pub completed_at : ℕ
  pub enabled : Option String

abbrev pub run_call : RunCall → World → Result IngestionResult × World
run_call c w =
    run c.services c.organization_id c.organization_slug c.last_day c.started_at c.completed_at
      c.enabled w

-- The world after runs that follow each other, each in the world that the one before left.
abbrev pub after_runs : List RunCall → World → World
after_runs [] w = w
after_runs (c ∷ calls) w = after_runs calls (run_call c w).1

abbrev Holds : String → Result IngestionResult × World → Type 0
Holds organization_id res = contains organization_id (held_after res) ≡ true

module _ (organization_id : String) (c : RunCall) (w : World)
    (holds : contains organization_id w.held ≡ true) where
  -- The end of the lock's session takes back no more than the lock of the run itself.
  finish-Holds :
      (res : Result IngestionResult × World)
      → held_after res ≡ c.organization_id ∷ w.held
      → Holds organization_id (
          finish c.organization_id c.organization_slug c.services.refused c.services.row_lock
            c.services.lock_crash
            (ingest c.services c.organization_id c.organization_slug c.last_day c.started_at
              c.completed_at)
            res)
  finish-Holds (r, w') h =
      let freed_own : contains organization_id (release c.organization_id w'.held) ≡ true =
        ap (λ held. contains organization_id (release c.organization_id held)) h
        ∙ ap (contains organization_id) (release_own c.organization_id w.held)
        ∙ holds in
      elim (Option-cases (c.services.refused lock_close w'.tables)) [
        | inr (e, o) ↦ rw (o, h) (ground (arith, holds))
        | inl o ↦ elim (Option-cases (c.services.refused lock_rollback w'.tables)) [
          | inl q ↦ rw (o, q) freed_own
          | inr (e, q) ↦ rw (o, q) freed_own
        ]
      ]

  after_context-Holds :
      (res : Result (Unit {0}))
      → Holds organization_id (
          after_context c.services c.organization_id c.organization_slug c.last_day c.started_at
            c.completed_at w res)
  after_context-Holds (err e) = holds
  after_context-Holds (ok _) =
      with_run_lock-ends {T = IngestionResult} c.organization_id c.organization_slug
        c.services.refused c.services.row_lock c.services.lock_crash
        (ingest c.services c.organization_id c.organization_slug c.last_day c.started_at
          c.completed_at)
        w (λ res. held_after res ≡ c.organization_id ∷ w.held) (λ e w' h. h.held)
        (λ w' h.
          ingest-held c.services c.organization_id c.organization_slug c.last_day c.started_at
            c.completed_at w'
          ∙ h.held)
        (Holds organization_id) finish-Holds (λ e o. ground (arith, holds)) holds

  -- A lock that is taken is still taken after a run of whichever organization.
  run-Holds : Holds organization_id (run_call c w)
  unfolding run
  run-Holds = after_context-Holds _

after_runs-Holds :
    (organization_id : String) (calls : List RunCall) (w : World)
    → contains organization_id w.held ≡ true
    → contains organization_id (after_runs calls w).held ≡ true
after_runs-Holds organization_id [] w h = h
after_runs-Holds organization_id (c ∷ calls) w h =
    after_runs-Holds organization_id calls (run_call c w).1 (run-Holds organization_id c w h)

-- A run that passes its first checks while its lock is taken raises that a run is in progress.
run-busy :
    (c : RunCall) (w : World)
    → check_context c.services c.organization_id c.organization_slug c.last_day c.started_at
        c.completed_at c.enabled
      ≡ ok tt
    → contains c.organization_id w.held ≡ true
    → run_call c w ≡ (err already_in_progress, w)
unfolding run with_run_lock
run-busy c w passes h = rw (passes, h) refl

module _ (first : RunCall) (w : World) (e : Exc)
    (passes : check_context first.services first.organization_id first.organization_slug
        first.last_day first.started_at first.completed_at first.enabled
      ≡ ok tt)
    (free : contains first.organization_id w.held ≡ false)
    (fails : first.services.refused open_session w.tables ≡ some e) where
  first-leaks :
      ((run_call first w).0 ≡ err e)
      × (contains first.organization_id (run_call first w).1.held ≡ true)
  unfolding run with_run_lock
  first-leaks = rw (passes, free, fails) (refl, rw (str_eq_refl first.organization_id) refl)

  -- When opening the session of the lock raises, in a run that passes its first checks while its lock is
  -- free, the process lock stays taken for good: the run raises that exception, and after any number of
  -- runs that follow it, of whichever organizations, on whichever services and at whatever times, a run
  -- for the same organization that passes its first checks raises that a run is in progress, and
  -- changes nothing.
  pub leaked_lock :
      (between : List RunCall) (later : RunCall)
      → later.organization_id ≡ first.organization_id
      → check_context later.services later.organization_id later.organization_slug later.last_day
          later.started_at later.completed_at later.enabled
        ≡ ok tt
      → ((run_call first w).0 ≡ err e)
        × (run_call later (after_runs between (run_call first w).1)
            ≡ (err already_in_progress, after_runs between (run_call first w).1))
  leaked_lock between later same fine = (
    first-leaks.0,
    run-busy later (after_runs between (run_call first w).1) fine (
        ap (λ o. contains o (after_runs between (run_call first w).1).held) same
        ∙ after_runs-Holds first.organization_id between (run_call first w).1 first-leaks.1),
  )
