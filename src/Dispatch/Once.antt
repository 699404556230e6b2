-- ===== src/Dispatch/Once.antt =====
-- No slot is claimed twice by the triggers and the ingestions of any requests, one after the other
-- (chief-of-staff/backend/app/connectors/torqueai_scheduler.py).
use mathlib.Core.Path.{subst}
use polaris_lab.Base.{
  Option-cases, ℕ, String, Bool, true, false, ◌&&◌, ◌||◌, Option, none, some, List, [], ◌∷◌, ◌==◌,
  str_eq, eq_iff, ◌≡◌, refl, inl, inr, Bool-cases, arith,
}
use polaris_lab.Backfill.Tables.{Organization}
use polaris_lab.Dispatch.Tables.{DispatchTables, DispatchSession}
use polaris_lab.Dispatch.Persist.{Ingestion}
use polaris_lab.Dispatch.Slots.{Sync, Trigger, escaped, has_slot, stopped, sync_error, synced}
use polaris_lab.Dispatch.Schedule.{
  ClaimRefusals, Stage, early, under_claim, prepare_run, ingestion_of, after_stage, run_scheduled,
}
use polaris_lab.Dispatch.Claims.{opened, KeepsSlots, IsPrepared, prepare_run-IsPrepared}
use polaris_lab.Dispatch.Service.{IngestionService}

-- What a request asks for: a scheduled run, or an ingestion by hand.
pub data Event : Type 0 where
  scheduled : Trigger → Event
  by_hand : Ingestion → Event

abbrev pub Key : Type 0
Key = String × ℕ

-- The slot that a stage has claimed, with its organization.
abbrev claimed_key : Sync Stage → Option Key
claimed_key (stopped e) = none
claimed_key (synced (early r)) = none
claimed_key (synced (under_claim o w run_id)) = some (o.id, w.slot)

abbrev equal_keys : Key → Key → Bool
equal_keys i j = str_eq i.0 j.0 && i.1 == j.1

equal_keys-eq : (k j : Key) → equal_keys k j ≡ true → (k.0 ≡ j.0) × (k.1 ≡ j.1)
equal_keys-eq k j h = ground (arith, eq_iff k.0 j.0)

abbrev key_in : Key → List Key → Bool
key_in k [] = false
key_in k (j ∷ keys) = equal_keys k j || key_in k keys

abbrev pub AreDifferent : List Key → Type 0
AreDifferent [] = Unit
AreDifferent (k ∷ keys) = (key_in k keys ≡ false) × AreDifferent keys

abbrev with_key : Option Key → List Key → List Key
with_key none keys = keys
with_key (some k) keys = k ∷ keys

module _ (db : ClaimRefusals) (organizations : List Organization) (service : IngestionService) where
  -- The claim of a request on these tables.
  abbrev claim_of_event : Event → DispatchTables → Option Key
  claim_of_event (scheduled t) tables =
      claimed_key (prepare_run db organizations t (opened tables)).0
  claim_of_event (by_hand call) tables = none

  -- What it leaves: the committed tables, and the number of requests sent.
  abbrev after_event : Event → DispatchTables → ℕ → DispatchTables × ℕ
  after_event (scheduled t) tables sent =
      let r = run_scheduled db organizations service.ingestion t (opened tables) sent in
      (r.0.1.committed, r.1)
  after_event (by_hand call) tables sent =
      let r = service.ingestion call (opened tables) sent in (r.0.1.committed, r.1)

  -- The claims of requests that come one after the other, in their order.
  unfoldable pub claims_of : List Event → DispatchTables → ℕ → List Key
  claims_of [] tables sent = []
  claims_of (e ∷ events) tables sent =
      let rest = claims_of events (after_event e tables sent).0 (after_event e tables sent).1 in
      with_key (claim_of_event e tables) rest

  -- The claim of a stage was free, its slot has a run after the ingestion, and so has any that had one.
  record IsStep (tables tables' : DispatchTables) (key : Option Key) : Type 0 where
    kept : KeepsSlots tables.runs tables'.runs
    fresh :
        (k : Key)
        → key ≡ some k
        → (has_slot k.0 k.1 tables.runs ≡ false) × (has_slot k.0 k.1 tables'.runs ≡ true)

  after_stage-IsStep :
      (t : Trigger) (tables : DispatchTables) (sent : ℕ) (stage : Sync Stage) (s : DispatchSession)
      → IsPrepared t tables (stage, s)
      → IsStep tables
          (after_stage db organizations service.ingestion t s sent stage).0.1.committed
          (claimed_key stage)
  after_stage-IsStep t tables sent (stopped (sync_error code)) s same = record {
    kept = rw same (λ o n h. h);
    fresh = λ k h. cc;
  }
  after_stage-IsStep t tables sent (stopped (escaped e)) s never = absurd never
  after_stage-IsStep t tables sent (synced (early r)) s (idle, same) = record {
    kept = rw same (λ o n h. h);
    fresh = λ k h. cc;
  }
  after_stage-IsStep t tables sent (synced (under_claim o w run_id)) s (drawn, own, h) =
      let call = ingestion_of db organizations t o w run_id in
      let still = service.keeps call s sent h.clean in
      record {
        kept = λ o' n taken. still o' n (h.kept o' n taken);
        fresh = λ k same.
            let same_one : (o.id, w.slot) ≡ k = cc in
            subst
              (λ j.
                (has_slot j.0 j.1 tables.runs ≡ false)
                × (has_slot j.0 j.1 (service.ingestion call s sent).0.1.committed.runs ≡ true))
              same_one (h.fresh, still o.id w.slot h.taken);
      }

  event-IsStep :
      (e : Event) (tables : DispatchTables) (sent : ℕ)
      → IsStep tables (after_event e tables sent).0 (claim_of_event e tables)
  unfolding run_scheduled
  event-IsStep (scheduled t) tables sent =
      let prepared = prepare_run db organizations t (opened tables) in
      after_stage-IsStep t tables sent prepared.0 prepared.1
        (prepare_run-IsPrepared db organizations t tables)
  event-IsStep (by_hand call) tables sent = record {
    kept = service.keeps call (opened tables) sent refl;
    fresh = λ k h. cc;
  }

  other_key :
      (tables : DispatchTables) (k j : Key)
      → has_slot k.0 k.1 tables.runs ≡ true
      → has_slot j.0 j.1 tables.runs ≡ false
      → equal_keys k j ≡ false
  other_key tables k j h free = elim (Bool-cases (equal_keys k j)) [
    | inl e ↦ let (a, b) = equal_keys-eq k j e in cc
    | inr e ↦ e
  ]

  -- A slot that has a run is not claimed any more.
  taken-unclaimed :
      (events : List Event) (tables : DispatchTables) (sent : ℕ) (k : Key)
      → has_slot k.0 k.1 tables.runs ≡ true
      → key_in k (claims_of events tables sent) ≡ false
  unfolding claims_of
  taken-unclaimed [] tables sent k h = refl
  taken-unclaimed (e ∷ events) tables sent k h =
      let step = event-IsStep e tables sent in
      let (tables', sent') = after_event e tables sent in
      let later = taken-unclaimed events tables' sent' k (step.kept k.0 k.1 h) in
      elim (Option-cases (claim_of_event e tables)) [
        | inl absent ↦ rw absent later
        | inr (j, e') ↦ rw e' (rw (other_key tables k j h (step.fresh j e').0) later)
      ]

  -- No slot of an organization is claimed twice, whatever requests come, each on a session of its own and
  -- one after the other: scheduled runs at whatever times and under whatever settings, and ingestions by
  -- hand. This is for an ingestion that leaves every slot its run.
  pub claims-AreDifferent :
      (events : List Event) (tables : DispatchTables) (sent : ℕ)
      → AreDifferent (claims_of events tables sent)
  unfolding claims_of
  claims-AreDifferent [] tables sent = tt
  claims-AreDifferent (e ∷ events) tables sent =
      let step = event-IsStep e tables sent in
      let (tables', sent') = after_event e tables sent in
      let later = claims-AreDifferent events tables' sent' in
      elim (Option-cases (claim_of_event e tables)) [
        | inl absent ↦ rw absent later
        | inr (k, e') ↦ rw e' (taken-unclaimed events tables' sent' k (step.fresh k e').1, later)
      ]
