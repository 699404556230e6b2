-- ===== src/Dispatch/Atomic.antt =====
-- What a whole run of `ingest_torqueai_dispatches`, chief-of-staff/backend/app/connectors/torqueai_ingestion.py,
-- leaves in the tables, by what queries for its claim, its run and its state find.
use mathlib.Core.Path.{subst}
use polaris_lab.Base.{
  sym, ℕ, String, Bool, true, false, ◌&&◌, Option, none, some, List, ◌==◌, ==→eq, ◌≡◌, refl, ◌⊎◌,
  inl, inr, Bool-cases, arith,
}
use polaris_lab.Python.Decimal.{Decimal}
use polaris_lab.Dispatch.Call.{Call, raised, returned}
use polaris_lab.Dispatch.Connector.{DispatchPage}
use polaris_lab.Dispatch.Normalize.{NormalizedDispatch}
use polaris_lab.Dispatch.Tables.{
  SyncStatus, sync_claimed, sync_success, sync_failed, SyncRun, DispatchTables, DispatchSession,
  find_run,
}
use polaris_lab.Dispatch.Persist.{RunCounts, Ingestion}
use polaris_lab.Dispatch.Fetch.{FetchProgress, counts_of, Connector, validate_range}
use polaris_lab.Dispatch.Fetches.{IsSingle}
use polaris_lab.Dispatch.Ingest.{
  Refusals, is_claim, claim_of, load_claimed_run, ingest_pages, after_load, ingest_claimed,
  ingest_checked, ingest_dispatches,
}
use polaris_lab.Dispatch.Outcomes.{IsWritten, ingest-IsWritten}
use polaris_lab.Dispatch.Recorded.{IsLogged, with_result-IsLogged, IsStated, put_state-IsStated}

-- The run is claimed, with a slot and for the window of the call.
pub record IsClaimFor (call : Ingestion) (r : SyncRun) : Type 0 where
  pub open_claim : r.status ≡ sync_claimed
  pub slot : (n : ℕ) × (r.trigger_slot ≡ some n)
  pub first_day : r.requested_from ≡ call.date_from
  pub last_day : r.requested_to ≡ call.date_to

-- The claim that the call names, if any, is there.
abbrev pub HasClaimFor : Ingestion → List SyncRun → Option String → Type 0
HasClaimFor call runs none = Unit
HasClaimFor call runs (some run_id) =
    (r : SyncRun) × (find_run call.organization_id run_id runs ≡ some r) × IsClaimFor call r

-- The run is a success under its claim, the state is that of the run, and all is committed.
pub record IsSuccess (call : Ingestion) (s s' : DispatchSession) (c : RunCounts) : Type 0 where
  pub claim : HasClaimFor call s.working.runs call.claimed_run_id
  pub run :
      IsLogged call sync_success c none call.completed_at call.claimed_run_id s.working.runs
        s'.committed.runs
  pub state : IsStated call s.working.states s'.committed.states
  pub clean : s'.working ≡ s'.committed

-- No dispatch and no state is written, and no run but for the failure of this one.
pub record IsFailure (call : Ingestion) (tables tables' : DispatchTables) : Type 0 where
  pub dispatches : tables'.dispatches ≡ tables.dispatches
  pub states : tables'.states ≡ tables.states
  pub runs :
      (tables'.runs ≡ tables.runs)
      ⊎ ((p : FetchProgress) × (code : String) × IsLogged call sync_failed
            (counts_of p)
            (some code)
            call.failed_at
            call.claimed_run_id
            tables.runs
            tables'.runs)

abbrev pub IsAtomic : Ingestion → DispatchSession → Call RunCounts × DispatchSession → Type 0
IsAtomic call s (raised e, s') = IsFailure call s.committed s'.committed
IsAtomic call s (returned c, s') = IsSuccess call s s' c

status_claimed :
    (status : SyncStatus)
    → elim status [ sync_claimed ↦ true | _ ↦ false ] ≡ true
    → status ≡ sync_claimed
status_claimed sync_claimed h = refl
status_claimed sync_success h = cc
status_claimed sync_failed h = cc

slot_there :
    (slot : Option ℕ)
    → elim slot [ none ↦ false | some n ↦ true ] ≡ true
    → (n : ℕ) × (slot ≡ some n)
slot_there none h = cc
slot_there (some n) h = (n, refl)

all_four :
    (a b c d : Bool) → (a && b && c && d) ≡ true → (a ≡ true) × (b ≡ true) × (c ≡ true) × (d ≡ true)
all_four a b c d h = ground arith

-- A call that returned had its claim.
abbrev IsUnderClaim : Ingestion → DispatchSession → Call RunCounts × DispatchSession → Type 0
IsUnderClaim call s (raised e, s') = Unit
IsUnderClaim call s (returned c, s') = HasClaimFor call s.working.runs call.claimed_run_id

with_claim :
    (call : Ingestion) (s : DispatchSession) (r : Call RunCounts × DispatchSession)
    → HasClaimFor call s.working.runs call.claimed_run_id
    → IsUnderClaim call s r
with_claim call s (raised e, s') h = tt
with_claim call s (returned c, s') h = h

module _ (db : Refusals) (column : Decimal → Decimal) where
  is_claim-IsClaimFor :
      (call : Ingestion) (r : SyncRun) → is_claim call r ≡ true → IsClaimFor call r
  is_claim-IsClaimFor call r h =
      let (a, b, c, d) =
        all_four (elim r.status [ sync_claimed ↦ true | _ ↦ false ])
          (elim r.trigger_slot [ none ↦ false | some n ↦ true ])
          (r.requested_from == call.date_from) (r.requested_to == call.date_to) h in
      record {
        open_claim = status_claimed r.status a;
        slot = slot_there r.trigger_slot b;
        first_day = ==→eq r.requested_from call.date_from c;
        last_day = ==→eq r.requested_to call.date_to d;
      }

  claim_of-IsClaimFor :
      (call : Ingestion) (found : Option SyncRun) {u : Unit {0}}
      → claim_of db column call found ≡ returned u
      → (r : SyncRun) × (found ≡ some r) × IsClaimFor call r
  claim_of-IsClaimFor call none h = cc
  claim_of-IsClaimFor call (some r) h = elim (Bool-cases (is_claim call r)) [
    | inl e ↦ (r, refl, is_claim-IsClaimFor call r e)
    | inr e ↦ cc (rw e at h)
  ]

  load-HasClaimFor :
      (call : Ingestion) (run_id : String) (tables : DispatchTables) {u : Unit {0}}
      → load_claimed_run db column call run_id tables ≡ returned u
      → HasClaimFor call tables.runs (some run_id)
  load-HasClaimFor call run_id tables h = elim (Bool-cases (db.refuses_load tables)) [
    | inl e ↦ cc (rw e at h)
    | inr e ↦
        claim_of-IsClaimFor call (find_run call.organization_id run_id tables.runs) (rw e at h)
  ]

  module _ (normalize : List DispatchPage → Call (List NormalizedDispatch))
      (fetch : Connector) where
    loaded-IsUnderClaim :
        (call : Ingestion) (s : DispatchSession) (sent : ℕ) (run_id : String)
        (loaded : Call (Unit {0}))
        → load_claimed_run db column call run_id s.working ≡ loaded
        → call.claimed_run_id ≡ some run_id
        → IsUnderClaim call s (after_load db column normalize fetch call s sent loaded).0
    loaded-IsUnderClaim call s sent run_id (raised e) h own = tt
    loaded-IsUnderClaim call s sent run_id (returned u) h own =
        with_claim call s (ingest_pages db column normalize fetch call s sent).0 (
          subst (HasClaimFor call s.working.runs) (sym own)
            (load-HasClaimFor call run_id s.working h))

    ingest_named-IsUnderClaim :
        (call : Ingestion) (s : DispatchSession) (sent : ℕ) (claimed : Option String)
        → call.claimed_run_id ≡ claimed
        → IsUnderClaim call s (ingest_claimed db column normalize fetch call s sent claimed).0
    ingest_named-IsUnderClaim call s sent none own =
        with_claim call s (ingest_pages db column normalize fetch call s sent).0
          (subst (HasClaimFor call s.working.runs) (sym own) tt)
    ingest_named-IsUnderClaim call s sent (some run_id) own =
        loaded-IsUnderClaim call s sent run_id _ refl own

    checked-IsUnderClaim :
        (call : Ingestion) (s : DispatchSession) (sent : ℕ) (checked : Call (Unit {0}))
        → IsUnderClaim call s (ingest_checked db column normalize fetch call s sent checked).0
    checked-IsUnderClaim call s sent (raised e) = tt
    checked-IsUnderClaim call s sent (returned _) =
        ingest_named-IsUnderClaim call s sent call.claimed_run_id refl

    written-IsAtomic :
        (call : Ingestion) (s : DispatchSession) (r : Call RunCounts × DispatchSession)
        → IsWritten column call s r
        → IsUnderClaim call s r
        → IsAtomic call s r
    written-IsAtomic call s (raised e, s') (rows, states, inl same) h = record {
      dispatches = rows;
      states = states;
      runs = inl same;
    }
    written-IsAtomic call s (raised e, s') (rows, states, inr (p, code, new)) h = record {
      dispatches = rows;
      states = states;
      runs = inr (
        p,
        code,
        rw new (
            with_result-IsLogged call sync_failed (counts_of p) (some code) call.failed_at
              s.committed.runs),
      );
    }
    written-IsAtomic call s (returned c, s') (runs, states, clean) h = record {
      claim = h;
      run =
          rw runs (with_result-IsLogged call sync_success c none call.completed_at s.working.runs);
      state = rw states (put_state-IsStated call s.working.states);
      clean = clean;
    }

    -- An ingestion writes all or nothing. When it raises, the committed dispatches and states are as
    -- before, and the runs too, but that a failure may be recorded: for a call without a claim as one
    -- new run behind the others, and for a claimed run, if it is there, in that run, which keeps its
    -- request, with every other run as before. When it returns, the claim that it was called with, if any,
    -- was there, with a slot and for the window; the success is recorded in the same way with the counts that
    -- it returns; the state of the organization names the window and the run, with every other state
    -- as before; and all is committed. This is for a connector that sends at most one request for a call.
    pub ingest-IsAtomic :
        IsSingle fetch
        → (call : Ingestion) (s : DispatchSession) (sent : ℕ)
        → IsAtomic call s (ingest_dispatches db column normalize fetch call s sent).0
    ingest-IsAtomic single call s sent =
        written-IsAtomic call s (ingest_dispatches db column normalize fetch call s sent).0
          (ingest-IsWritten column db normalize fetch single call s sent)
          (unfold ingest_dispatches in
            checked-IsUnderClaim call s sent (validate_range call.date_from call.date_to))
