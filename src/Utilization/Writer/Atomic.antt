-- ===== src/Utilization/Writer/Atomic.antt =====
-- What a failed write leaves behind, of
-- chief-of-staff/backend/app/motive/vehicle_utilization_writer.py.
use polaris_lab.Base.{String, List, ◌≡◌, refl, arith}
use polaris_lab.Outcome.{
  Exc, connector_error, parse_error, pagination_error, reconciliation_error, production_error,
  unexpected, out_of_fuel, writer_error, integrity_error, sqlalchemy_error, Result, ok, err,
}
use polaris_lab.Utilization.Writer.{
  WriteResult, handled, after_commit, after_prepare, prepare, save, write,
}
use polaris_lab.Utilization.Writer.Store.{Session, Database, Statement, IsFault, rollback}
use polaris_lab.Utilization.Writer.Validate.{Batch}
use polaris_lab.Utilization.Writer.Plan.{WritePlan}
use polaris_lab.Utilization.Writer.Stage.{stage}
use polaris_lab.Utilization.Writer.Raises.{IsRaised, Raises, prepare-Raises, save-Raises}

module _ (db : Database) (b : Batch) where
  -- A write that returned has planned the batch, and committed the rows that the plan stages on those of
  -- the session.
  pub record IsSaved (s s' : Session) : Type 0 where
    pub selected : List String
    pub write_plan : WritePlan
    pub planned : prepare db b s ≡ ok (selected, write_plan)
    pub saved : s'.committed ≡ (stage db write_plan s).working
    pub clean : s'.working ≡ s'.committed
    pub vehicles : s'.vehicles ≡ s.vehicles

  -- A failed write raises a writer error and leaves the session rolled back; a successful one has
  -- committed what it staged and left the vehicles alone.
  abbrev pub IsAtomic : Session → Result WriteResult × Session → Type 0
  IsAtomic s (err e, s') = ((code : String) × (e ≡ writer_error code)) × (s' ≡ rollback s)
  IsAtomic s (ok r, s') = IsSaved s s'

rollback-eq :
    (s staged : Session)
    → staged.committed ≡ s.committed
    → staged.vehicles ≡ s.vehicles
    → rollback staged ≡ rollback s
rollback-eq s staged p q = ground arith

module _ (db : Database) (b : Batch) where
  handled-IsAtomic :
      (s staged : Session) (e : Exc)
      → IsRaised e
      → staged.committed ≡ s.committed
      → staged.vehicles ≡ s.vehicles
      → IsAtomic db b s (handled staged e)
  handled-IsAtomic s staged (writer_error code) h p q = ((code, refl), rollback-eq s staged p q)
  handled-IsAtomic s staged integrity_error h p q =
      (("database_identity_conflict", refl), rollback-eq s staged p q)
  handled-IsAtomic s staged sqlalchemy_error h p q =
      (("database_persistence_error", refl), rollback-eq s staged p q)
  handled-IsAtomic s staged (connector_error _) h p q = elim h [ ]
  handled-IsAtomic s staged (parse_error _) h p q = elim h [ ]
  handled-IsAtomic s staged (pagination_error _) h p q = elim h [ ]
  handled-IsAtomic s staged (reconciliation_error _) h p q = elim h [ ]
  handled-IsAtomic s staged (production_error _) h p q = elim h [ ]
  handled-IsAtomic s staged unexpected h p q = elim h [ ]
  handled-IsAtomic s staged out_of_fuel h p q = elim h [ ]

module _ (db : Database) (faults : (st : Statement) (s : Session) → IsFault (db.fault st s)) where
  after_commit-IsAtomic :
      (b : Batch) (selected : List String) (plan : WritePlan) (s : Session) (r : Result (Unit {0}))
      → prepare db b s ≡ ok (selected, plan)
      → Raises r
      → IsAtomic db b s (after_commit db b selected plan (stage db plan s) r)
  after_commit-IsAtomic b selected plan s (err e) known h =
      handled-IsAtomic db b s (stage db plan s) e h refl refl
  after_commit-IsAtomic b selected plan s (ok u) known h = record {
    selected = selected;
    write_plan = plan;
    planned = known;
    saved = refl;
    clean = refl;
    vehicles = refl;
  }

  after_prepare-IsAtomic :
      (b : Batch) (s : Session) (r : Result (List String × WritePlan))
      → prepare db b s ≡ r
      → Raises r
      → IsAtomic db b s (after_prepare db b s r)
  unfolding save
  after_prepare-IsAtomic b s (err e) known h = handled-IsAtomic db b s s e h refl refl
  after_prepare-IsAtomic b s (ok (selected, plan)) known h =
      after_commit-IsAtomic b selected plan s _ known (save-Raises db faults (stage db plan s))

  -- When the database raises only its library's exceptions, every write ends in one of two ways: it
  -- raises a writer error and the session is rolled back to what was committed, or it returns: the batch
  -- was planned on the session, the rows that the plan stages on the session's are the committed ones
  -- and the working ones, and the vehicles are as before.
  pub write-IsAtomic : (b : Batch) (s : Session) → IsAtomic db b s (write db b s)
  unfolding write
  write-IsAtomic b s =
      after_prepare-IsAtomic b s (prepare db b s) refl (prepare-Raises db faults b s)
