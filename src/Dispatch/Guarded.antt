-- ===== src/Dispatch/Guarded.antt =====
-- What a trigger of chief-of-staff/backend/app/connectors/torqueai_scheduler.py leaves behind.
use polaris_lab.Base.{ℕ, ◌+◌, ◌≤◌, true, false, none, some, ◌≡◌, ◌⊎◌}
use polaris_lab.Backfill.Tables.{Organization}
use polaris_lab.Dispatch.Call.{ingestion_fault, other_fault, Call, raised, returned}
use polaris_lab.Dispatch.Tables.{DispatchTables, DispatchSession}
use polaris_lab.Dispatch.Persist.{Ingestion, RunCounts}
use polaris_lab.Dispatch.Slots.{
  ScheduledResult, SlotWindow, Sync, Trigger, escaped, has_slot, stopped, sync_error, synced,
}
use polaris_lab.Dispatch.Claims.{IsOwn, IsClaimed}
use polaris_lab.Dispatch.Service.{IngestionService}

-- A result without a claim, or a scheduler's error.
abbrev IsIdle : Sync ScheduledResult → Type 0
IsIdle (synced r) = r.dispatch_claimed ≡ false
IsIdle (stopped (sync_error code)) = Unit
IsIdle (stopped (escaped e)) = ⊥

-- The answer to an ingestion under a claim: its own exceptions become a failed result, others pass by; a
-- return becomes an executed result with the counts, unless the total is missing.
abbrev IsAnswered : SlotWindow → Call RunCounts → Sync ScheduledResult → Type 0
IsAnswered w (raised (ingestion_fault code status)) answer =
    (r : ScheduledResult) × (answer ≡ synced r)
    × (r.status ≡ "failed")
    × (r.error_code ≡ some code)
    × (r.counts ≡ none)
    × (r.dispatch_claimed ≡ true)
    × (r.trigger_slot ≡ w.slot)
IsAnswered w (raised e) answer = answer ≡ stopped (escaped e)
IsAnswered w (returned c) answer =
    ((c.provider_total_count ≡ none) × (answer ≡ stopped (escaped other_fault)))
    ⊎ ((r : ScheduledResult) × (answer ≡ synced r)
        × (r.status ≡ "executed")
        × (r.error_code ≡ none)
        × (r.counts ≡ some c)
        × (r.dispatch_claimed ≡ true)
        × (r.trigger_slot ≡ w.slot))

-- The call is for the organization and the window, under the claim.
pub record IsCallFor (t : Trigger) (o : Organization) (w : SlotWindow) (call : Ingestion)
    : Type 0 where
  pub id : call.organization_id ≡ o.id
  pub slug : call.organization_slug ≡ o.slug
  pub first_day : call.date_from ≡ w.first_day
  pub last_day : call.date_to ≡ w.last_day
  pub run : call.claimed_run_id ≡ some t.drawn_run_id

-- The trigger claimed a free slot of its own organization and ran the ingestion once on the session of the
-- claim; the slot has a committed run before and after, and at most ten requests were sent.
pub record HasRun (service : IngestionService) (t : Trigger) (tables : DispatchTables) (sent : ℕ)
    (result : (Sync ScheduledResult × DispatchSession) × ℕ) : Type 0 where
  pub organization : Organization
  pub window : SlotWindow
  pub claim_session : DispatchSession
  pub call : Ingestion
  pub own : IsOwn t organization window
  pub claim : IsClaimed tables organization.id window.slot claim_session
  pub asked : IsCallFor t organization window call
  pub session : result.0.1 ≡ (service.ingestion call claim_session sent).0.1
  pub requests : result.1 ≡ (service.ingestion call claim_session sent).1
  pub answer : IsAnswered window (service.ingestion call claim_session sent).0.0 result.0.0
  pub taken : has_slot organization.id window.slot result.0.1.committed.runs ≡ true
  pub few : result.1 ≤ sent + 10

abbrev pub IsGuarded :
    IngestionService
    → Trigger
    → DispatchTables
    → ℕ
    → (Sync ScheduledResult × DispatchSession) × ℕ
    → Type 0
IsGuarded service t tables sent result =
    (IsIdle result.0.0 × (result.0.1.committed ≡ tables) × (result.1 ≡ sent))
    ⊎ HasRun service t tables sent result
