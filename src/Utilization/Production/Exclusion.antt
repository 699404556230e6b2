-- ===== src/Utilization/Production/Exclusion.antt =====
-- The lock around a run, of
-- chief-of-staff/backend/app/motive/vehicle_utilization_production_ingestion.py.
use polaris_lab.Base.{
  String, Option, none, some, ◌∷◌, contains, ◌≡◌, refl, Bool-cases, Option-cases, inl, inr, arith,
}
use polaris_lab.Outcome.{
  Exc, connector_error, parse_error, pagination_error, writer_error, reconciliation_error,
  production_error, integrity_error, sqlalchemy_error, unexpected, out_of_fuel, Result, ok, err,
}
use polaris_lab.Utilization.Production.Ledger.{
  checkpoint_resource, Checkpoint, Tables, Access, open_session, lock_rollback, lock_close,
  checkpoint_of, is_checkpoint,
}
use polaris_lab.Utilization.Production.Lock.{
  World, RowLock, with_anchor, after_anchor, without_anchor, after_anchor_query, ensure_lock_anchor,
  already_in_progress, freed, inside, finish, after_ensure, with_run_lock,
}
use polaris_lab.Utilization.Production.Recorded.{checkpoint_of-append}

-- The world in which the body of the lock runs: the organization's lock is held, and all else but an
-- anchor for the lock is as before.
pub record IsEntered (organization_id : String) (w w' : World) : Type 0 where
  pub session : w'.session ≡ w.session
  pub sent : w'.sent ≡ w.sent
  pub snapshots : w'.snapshots ≡ w.snapshots
  pub history : w'.tables.history ≡ w.tables.history
  pub checkpoint :
      checkpoint_of organization_id checkpoint_resource w'.tables.checkpoints
      ≡ checkpoint_of organization_id checkpoint_resource w.tables.checkpoints
  pub held : w'.held ≡ organization_id ∷ w.held

-- The session of the lock is closed without an exception.
abbrev pub IsQuiet : (Access → Tables → Option Exc) → Type 0
IsQuiet refused =
    (tables : Tables) → (refused lock_rollback tables ≡ none) × (refused lock_close tables ≡ none)

module _ (organization_id slug : String) (refused : Access → Tables → Option Exc) (w : World) where
  abbrev pub taken : World
  taken = record w { held = organization_id ∷ w.held }

  taken-IsEntered : IsEntered organization_id w taken
  taken-IsEntered = record {
    session = refl;
    sent = refl;
    snapshots = refl;
    history = refl;
    checkpoint = refl;
    held = refl;
  }

  anchored-IsEntered :
      IsEntered organization_id w
        (record taken { tables = with_anchor organization_id slug refused w.tables })
  unfolding is_checkpoint
  anchored-IsEntered = record {
    session = refl;
    sent = refl;
    snapshots = refl;
    history = refl;
    checkpoint =
        checkpoint_of-append organization_id checkpoint_resource w.tables.checkpoints _
          (ground arith);
    held = refl;
  }

  after_anchor-IsEntered :
      (fault : Option Exc)
      → IsEntered organization_id w (after_anchor organization_id slug refused taken fault).1
  after_anchor-IsEntered none = anchored-IsEntered
  after_anchor-IsEntered (some integrity_error) = taken-IsEntered
  after_anchor-IsEntered (some sqlalchemy_error) = taken-IsEntered
  after_anchor-IsEntered (some (connector_error _)) = taken-IsEntered
  after_anchor-IsEntered (some (parse_error _)) = taken-IsEntered
  after_anchor-IsEntered (some (pagination_error _)) = taken-IsEntered
  after_anchor-IsEntered (some (writer_error _)) = taken-IsEntered
  after_anchor-IsEntered (some (reconciliation_error _)) = taken-IsEntered
  after_anchor-IsEntered (some (production_error _)) = taken-IsEntered
  after_anchor-IsEntered (some unexpected) = taken-IsEntered
  after_anchor-IsEntered (some out_of_fuel) = taken-IsEntered

  without_anchor-IsEntered :
      (found : Option Checkpoint)
      → IsEntered organization_id w (without_anchor organization_id slug refused taken found).1
  without_anchor-IsEntered (some c) = taken-IsEntered
  without_anchor-IsEntered none = after_anchor-IsEntered _

  after_query-IsEntered :
      (res : Result (Unit {0}))
      → IsEntered organization_id w (after_anchor_query organization_id slug refused taken res).1
  after_query-IsEntered (err e) = taken-IsEntered
  after_query-IsEntered (ok _) = without_anchor-IsEntered _

  ensure-IsEntered :
      IsEntered organization_id w (ensure_lock_anchor organization_id slug refused taken).1
  unfolding ensure_lock_anchor
  ensure-IsEntered = after_query-IsEntered _

-- What holds of the body wherever it is entered, and when the lock is refused, holds before the release.
module _ {T : Type 0} (organization_id slug : String) (refused : Access → Tables → Option Exc)
    (row_lock : Tables → RowLock) (raised : Exc) (body : World → Result T × World) (w : World)
    (Q : Result T × World → Type 0)
    (stops : (e : Exc) (w' : World) → IsEntered organization_id w w' → Q (err e, w'))
    (runs : (w' : World) → IsEntered organization_id w w' → Q (body w')) where
  inside-holds :
      (w' : World) (res : Result (Unit {0}))
      → IsEntered organization_id w w'
      → Q (inside body w' res)
  inside-holds w' (err e) h = stops e w' h
  inside-holds w' (ok _) h = runs w' h

  after_ensure-holds :
      (res : Result (Unit {0}) × World)
      → IsEntered organization_id w res.1
      → Q (after_ensure organization_id slug refused row_lock raised body res)
  after_ensure-holds (err e, w') h = stops e w' h
  after_ensure-holds (ok _, w') h = inside-holds w' _ h

  -- A rule for a whole run under the lock: `P` holds after whatever the end of the lock's session does.
  pub with_run_lock-ends :
      (P : Result T × World → Type 0)
      → ((res : Result T × World)
          → Q res
          → P (finish organization_id slug refused row_lock raised body res))
      → ((e : Exc)
          → refused open_session w.tables ≡ some e
          → P (err e, taken organization_id slug refused w))
      → P (err already_in_progress, w)
      → P (with_run_lock organization_id slug refused row_lock raised body w)
  unfolding with_run_lock
  with_run_lock-ends P ends leaks busy = elim (Bool-cases (contains organization_id w.held)) [
    | inl h ↦ rw h busy
    | inr h ↦ elim (Option-cases (refused open_session w.tables)) [
      | inl o ↦
          rw (h, o)
            (ends _ (after_ensure-holds _ (ensure-IsEntered organization_id slug refused w)))
      | inr (e, o) ↦ rw (h, o) (leaks e o)
    ]
  ]

-- The rule for a session of the lock that closes without an exception: `P` holds after the release.
module _ {T : Type 0} (organization_id slug : String) (refused : Access → Tables → Option Exc)
    (row_lock : Tables → RowLock) (raised : Exc) (body : World → Result T × World) (w : World)
    (Q P : Result T × World → Type 0)
    (stops : (e : Exc) (w' : World) → IsEntered organization_id w w' → Q (err e, w'))
    (runs : (w' : World) → IsEntered organization_id w w' → Q (body w')) (quiet : IsQuiet refused)
    (frees : (r : Result T) (w' : World) → Q (r, w') → P (r, freed organization_id w')) where
  finish-holds :
      (res : Result T × World)
      → Q res
      → P (finish organization_id slug refused row_lock raised body res)
  finish-holds (r, w') h = let q = quiet w'.tables in rw (q.0, q.1) (frees r w' h)

  pub with_run_lock-holds :
      ((e : Exc)
        → refused open_session w.tables ≡ some e
        → P (err e, taken organization_id slug refused w))
      → P (err already_in_progress, w)
      → P (with_run_lock organization_id slug refused row_lock raised body w)
  with_run_lock-holds =
      with_run_lock-ends organization_id slug refused row_lock raised body w Q stops runs P
        finish-holds
