-- ===== src/Utilization/Production/Lock.antt =====
-- `_organization_run_lock` of
-- chief-of-staff/backend/app/motive/vehicle_utilization_production_ingestion.py: the lock of the process,
-- and the lock of a row that other processes see. `held` names the organizations whose process lock is
-- taken; the locks themselves and the answer of the database are outside of the code.
use Prim.Native.Char.{code}
use polaris_lab.Base.{
  ℕ, String, Bool, true, false, ◌&&◌, ◌||◌, ◌==◌, Option, none, some, List, [], ◌∷◌, ◌++◌, str_eq,
  contains, if◌then◌else◌,
}
use polaris_lab.Outcome.{Exc, production_error, integrity_error, sqlalchemy_error, Result, ok, err}
use polaris_lab.Python.Text.{is_empty}
use polaris_lab.Utilization.Writer.{raise_fault}
use polaris_lab.Utilization.Writer.Store.{Session}
use polaris_lab.Utilization.Reconciliation.Schedule.{lower_code}
use polaris_lab.Utilization.Rollup.{Date}
use polaris_lab.Utilization.Production.Ledger.{
  lock_resource, empty_position, Checkpoint, Tables, Access, open_session, read_anchor,
  write_anchor, lock_rollback, lock_close, checkpoint_of,
}

-- A request for a snapshot of the key figures, with the history row that it is based on.
pub record SnapshotRequest : Type 0 where
  pub source_history_id : ℕ
  pub window_end : Date

pub record World : Type 0 where
  pub session : Session
  pub tables : Tables
  pub held : List String
  pub sent : ℕ
  pub snapshots : List SnapshotRequest

-- The driver's error behind an OperationalError; an attribute that is not there is `none`.
pub record DriverError : Type 0 where
  pub pgcode : Option String
  pub sqlstate : Option String
  pub message : String

-- How the database answers the query that locks the row without waiting.
pub data RowLock : Type 0 where
  granted : RowLock
  operational : Option DriverError → RowLock
  refused_otherwise : RowLock
  crashed : RowLock

starts_with_lower : String → String → Bool
unfolding lower_code
starts_with_lower String.[] s = true
starts_with_lower (String.◌∷◌ c p) String.[] = false
starts_with_lower (String.◌∷◌ c p) (String.◌∷◌ d s) =
    code c == lower_code (code d) && starts_with_lower p s

-- `part in s.lower()`, for a `part` that only ASCII letters lower to
unfoldable pub in_lower : String → String → Bool
unfolding starts_with_lower
in_lower part String.[] = starts_with_lower part String.[]
in_lower part (String.◌∷◌ c s) = starts_with_lower part (String.◌∷◌ c s) || in_lower part s

abbrev first_code : Option String → Option String → Option String
first_code none other = other
first_code (some value) other = if is_empty value then other else some value

abbrev is_code : Option String → String → Bool
is_code none value = false
is_code (some found) value = str_eq found value

-- `_is_lock_not_available`
unfoldable pub is_lock_not_available : Option DriverError → Bool
is_lock_not_available none = false
is_lock_not_available (some e) =
    is_code (first_code e.pgcode e.sqlstate) "55P03" || in_lower "locked" e.message

abbrev pub already_in_progress : Exc
already_in_progress = production_error "production_run_already_in_progress"

abbrev lock_database_error : Exc
lock_database_error = production_error "production_lock_database_error"

unfoldable pub take_row_lock : RowLock → Exc → Result (Unit {0})
take_row_lock granted raised = ok tt
take_row_lock (operational e) raised =
    err (if is_lock_not_available e then already_in_progress else lock_database_error)
take_row_lock refused_otherwise raised = err lock_database_error
take_row_lock crashed raised = err raised

-- `process_lock.release()`
unfoldable pub release : String → List String → List String
release organization_id [] = []
release organization_id (x ∷ held) =
    if str_eq organization_id x then held else x ∷ release organization_id held

module _ (organization_id organization_slug : String) (refused : Access → Tables → Option Exc) where
  abbrev pub with_anchor : Tables → Tables
  with_anchor tables = record tables {
    checkpoints =
        tables.checkpoints
        ++ record {
          organization_id = organization_id;
          organization_slug = organization_slug;
          provider_resource = lock_resource;
          updated_after_watermark = none;
          last_successful_position = some empty_position;
          checkpoint_status = "lock_anchor";
          last_successful_sync_at = none;
        }
          ∷ [];
  }

  -- The commit of a new anchor; another process may have made it first.
  abbrev pub after_anchor : World → Option Exc → Result (Unit {0}) × World
  after_anchor w none = (ok tt, record w { tables = with_anchor w.tables })
  after_anchor w (some integrity_error) = (ok tt, w)
  after_anchor w (some sqlalchemy_error) = (err lock_database_error, w)
  after_anchor w (some e) = (err e, w)

  abbrev pub without_anchor : World → Option Checkpoint → Result (Unit {0}) × World
  without_anchor w (some c) = (ok tt, w)
  without_anchor w none = after_anchor w (refused write_anchor (with_anchor w.tables))

  abbrev pub after_anchor_query : World → Result (Unit {0}) → Result (Unit {0}) × World
  after_anchor_query w (err e) = (err e, w)
  after_anchor_query w (ok _) =
      without_anchor w (checkpoint_of organization_id lock_resource w.tables.checkpoints)

  -- `_ensure_lock_anchor`
  unfoldable pub ensure_lock_anchor : World → Result (Unit {0}) × World
  ensure_lock_anchor w = after_anchor_query w (raise_fault (refused read_anchor w.tables))

abbrev pub freed : String → World → World
freed organization_id w = record w { held = release organization_id w.held }

-- The `finally` clause: the roll back and the close of the lock's session, then the release. A close
-- that raises keeps the release from being reached.
abbrev pub leave :
    {T : Type 0} → String → Option Exc → Option Exc → Result T × World → Result T × World
leave organization_id rolled_back (some e) (r, w) = (err e, w)
leave organization_id (some e) none (r, w) = (err e, freed organization_id w)
leave organization_id none none (r, w) = (r, freed organization_id w)

abbrev pub inside :
    {T : Type 0} → (World → Result T × World) → World → Result (Unit {0}) → Result T × World
inside body w (err e) = (err e, w)
inside body w (ok _) = body w

module _ {T : Type 0} (organization_id organization_slug : String)
    (refused : Access → Tables → Option Exc) (row_lock : Tables → RowLock) (raised : Exc)
    (body : World → Result T × World) where
  abbrev pub after_ensure : Result (Unit {0}) × World → Result T × World
  after_ensure (err e, w) = (err e, w)
  after_ensure (ok _, w) = inside body w (take_row_lock (row_lock w.tables) raised)

  abbrev pub finish : Result T × World → Result T × World
  finish (r, w) =
      leave organization_id (refused lock_rollback w.tables) (refused lock_close w.tables) (r, w)

  abbrev after_open : World → Result (Unit {0}) → Result T × World
  after_open w (err e) = (err e, w)
  after_open w (ok _) =
      finish (after_ensure (ensure_lock_anchor organization_id organization_slug refused w))

  -- `with _organization_run_lock(...): body`
  unfoldable pub with_run_lock : World → Result T × World
  with_run_lock w =
      let taken : World = record w { held = organization_id ∷ w.held } in
      if contains organization_id w.held
      then (err already_in_progress, w)
      else after_open taken (raise_fault (refused open_session taken.tables))
