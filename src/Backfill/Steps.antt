-- ===== src/Backfill/Steps.antt =====
-- The operations of chief-of-staff/backend/app/connectors/torqueai_backfill_control.py as steps of one
-- ledger, in any order and for any tenant, and what a sequence of them keeps.
use polaris_lab.Base.{find_first-All, ℕ, String, Bool, some, List, All, ◌≡◌}
use polaris_lab.Backfill.Control.{done, Done-at}
use polaris_lab.Backfill.Tables.{
  is_window, Interval, Status, approved, Window, Organization, Ledger, find_window,
}
use polaris_lab.Backfill.Reports.{Report, Evidence}
use polaris_lab.Backfill.Plan.{plan}
use polaris_lab.Backfill.Preview.{begin_preview, finish_preview, approve}
use polaris_lab.Backfill.Moves.{
  IsNone, AreFresh, AllMove-fresh, AllMove, AllMove-find, IsClosed, AllMove-IsClosed,
  Moves-approved,
}
use polaris_lab.Backfill.Moves.Calls.{
  MovesTo, plan-MovesTo, begin-MovesTo, finish-MovesTo, approve-Moves,
}

module _ (organizations : List Organization) (uuid : ℕ → String)
    (fingerprint : Evidence → String) where
  -- One operation that was done.
  pub data Step (l l' : Ledger Evidence) : Type 0 where
    plans :
        (organization_id request_key operator code_sha : String) (windows : List Interval) (now : ℕ)
        (id : String)
        → plan organizations uuid organization_id request_key operator code_sha windows now l
          ≡ done (id, l')
        → Step l l'
    begins :
        (organization_id window_id request_key operator code_sha : String) (now : ℕ)
        (result : String × Bool)
        → begin_preview organizations uuid fingerprint organization_id window_id request_key
            operator code_sha now l
          ≡ done (result, l')
        → Step l l'
    ends :
        (organization_id window_id attempt_id : String) (report : Report) (checked_at now : ℕ)
        (status : Status)
        → finish_preview organizations uuid fingerprint organization_id window_id attempt_id report
            checked_at now l
          ≡ done (status, l')
        → Step l l'
    grants :
        (organization_id window_id operator : String) (now : ℕ)
        → approve organizations uuid fingerprint organization_id window_id operator now l ≡ done l'
        → Step l l'

  pub data Runs (l : Ledger Evidence) : Ledger Evidence → Type 0 where
    here : Runs l l
    next : {m n : Ledger Evidence} → Runs l m → Step m n → Runs l n

  -- Every operation that is done lets each window of the ledger make one move of its life, loses none,
  -- and adds only planned windows without a claim: a window is claimed when it is not approved and no
  -- claim of it is live, a live claim ends in a verdict, and only a previewed window is approved.
  pub Step-AllMove : (l l' : Ledger Evidence) → Step l l' → AllMove AreFresh l.windows l'.windows
  Step-AllMove l l' (plans org key operator sha windows now id h) =
      Done-at (MovesTo organizations uuid fingerprint org AreFresh String l) _ h
        (plan-MovesTo organizations uuid fingerprint org key operator sha windows now l)
  Step-AllMove l l' (begins org window_id key operator sha now result h) =
      AllMove-fresh l.windows l'.windows (
        Done-at (MovesTo organizations uuid fingerprint org IsNone (String × Bool) l) _ h
          (begin-MovesTo organizations uuid fingerprint org window_id key operator sha now l))
  Step-AllMove l l' (ends org window_id attempt_id report checked_at now status h) =
      AllMove-fresh l.windows l'.windows (
        Done-at (MovesTo organizations uuid fingerprint org IsNone Status l) _ h (
          finish-MovesTo organizations uuid fingerprint org window_id attempt_id report checked_at
            now l))
  Step-AllMove l l' (grants org window_id operator now h) = AllMove-fresh l.windows l'.windows (
      Done-at (λ l'. AllMove IsNone l.windows l'.windows) _ h
        (approve-Moves organizations uuid fingerprint org window_id operator now l))

  Runs-IsClosed :
      (l l' : Ledger Evidence) → Runs l l' → All IsClosed l.windows → All IsClosed l'.windows
  Runs-IsClosed l l' here h = h
  Runs-IsClosed l l' (next {m} r s) h =
      AllMove-IsClosed m.windows l'.windows (Step-AllMove m l' s) (Runs-IsClosed l m r h)

  -- An approval is final: whatever operations are done after it, in whatever order and for whichever
  -- tenant, the window stays exactly as it was approved. This is for a ledger in which only planned
  -- windows have claims, as every ledger that grew by these operations is.
  pub approval_final :
      (organization_id id : String) (w : Window) (l l' : Ledger Evidence)
      → Runs l l'
      → All IsClosed l.windows
      → find_window organization_id id l.windows ≡ some w
      → w.status ≡ approved
      → find_window organization_id id l'.windows ≡ some w
  approval_final organization_id id w l l' here closed f a = f
  approval_final organization_id id w l l' (next {m} r s) closed f a =
      let before = approval_final organization_id id w l m r closed f a in
      let (w', found, moved) =
        AllMove-find organization_id id w m.windows l'.windows before (Step-AllMove m l' s) in
      let same =
        Moves-approved w w' moved
          (find_first-All (is_window organization_id id) IsClosed m.windows w before
            (Runs-IsClosed l m r closed))
          a in
      rw (← same) found
