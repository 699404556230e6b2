-- ===== src/Utilization/Writer/Store.antt =====
-- The rows that the writer reads and writes (MotiveVehicleRecord and MotiveVehicleUtilizationRecord
-- of chief-of-staff/backend/app/models/motive.py) and the session over them. Columns that the writer
-- always leaves empty, and the two timestamps, are left out.
use polaris_lab.Base.{ℕ, String, Bool, Option, none, some, List, [], ◌∷◌, ◌++◌, ◌==◌, if◌then◌else◌}
use mathlib.Core.Option
use polaris_lab.Outcome.{Exc, integrity_error, sqlalchemy_error}
use polaris_lab.Python.Decimal.{Decimal}
use polaris_lab.Utilization.Rollup.{Metrics, Date}

pub record VehicleRecord : Type 0 where
  pub id : ℕ
  pub organization_id : String
  pub provider_vehicle_id : String

-- The columns of a utilization row but its primary key.
pub record UtilizationRecord : Type 0 where
  pub organization_id : String
  pub organization_slug : String
  pub provider : String
  pub provider_vehicle_id : Option String
  pub motive_vehicle_id : Option ℕ
  pub source_endpoint : String
  pub request_window_start : Option Date
  pub request_window_end : Option Date
  pub metrics : Metrics
  pub metric_units : Option Bool
  pub parser_version : Option String

-- A row that the database holds, under its primary key.
pub record Row : Type 0 where
  pub id : ℕ
  pub value : UtilizationRecord

-- `committed` is what other sessions see, `working` what this one has staged on top of it.
pub record Session : Type 0 where
  pub vehicles : List VehicleRecord
  pub committed : List Row
  pub working : List Row

-- The five metrics by name.
pub data Field : Type 0 where
  utilization_percent idle_time driving_time idle_fuel driving_fuel : Field

abbrev pub get : Field → Metrics → Option Decimal
get utilization_percent m = m.utilization_percent
get idle_time m = m.idle_time
get driving_time m = m.driving_time
get idle_fuel m = m.idle_fuel
get driving_fuel m = m.driving_fuel

-- `setattr(row, field_name, value)`, on the metrics of the row
abbrev pub put : Field → Option Decimal → Metrics → Metrics
put utilization_percent v m = record m { utilization_percent = v }
put idle_time v m = record m { idle_time = v }
put driving_time v m = record m { driving_time = v }
put idle_fuel v m = record m { idle_fuel = v }
put driving_fuel v m = record m { driving_fuel = v }

-- A statement that the session sends, and how the database may refuse it.
pub data Statement : Type 0 where
  tenant_query vehicle_query row_query flush commit : Statement

-- What the database does: how a numeric column keeps a value, which primary key a new row gets, and
-- which statements fail.
pub record Database : Type 0 where
  pub stored : Decimal → Decimal
  pub next_id : List Row → ℕ
  pub fault : Statement → Session → Option Exc

-- The faults are the exceptions of the database library.
abbrev pub IsFault : Option Exc → Type 0
IsFault none = Unit
IsFault (some integrity_error) = Unit
IsFault (some sqlalchemy_error) = Unit
IsFault (some _) = ⊥

abbrev pub rollback : Session → Session
rollback s = record s { working = s.committed }

abbrev pub commit_session : Session → Session
commit_session s = record s { committed = s.working }

module _ (db : Database) where
  abbrev pub stored_value : Option Decimal → Option Decimal
  stored_value = Option.map db.stored

  -- The metrics as the columns keep them.
  abbrev stored_metrics : Metrics → Metrics
  stored_metrics m = record {
    utilization_percent = stored_value m.utilization_percent;
    idle_time = stored_value m.idle_time;
    driving_time = stored_value m.driving_time;
    idle_fuel = stored_value m.idle_fuel;
    driving_fuel = stored_value m.driving_fuel;
  }

  -- The row that the flush makes of an added object.
  abbrev pub new_row : UtilizationRecord → List Row → Row
  new_row r rows = record {
    id = db.next_id rows;
    value = record r { metrics = stored_metrics r.metrics };
  }

  -- `session.add`
  unfoldable pub add_row : UtilizationRecord → List Row → List Row
  add_row r rows = rows ++ new_row r rows ∷ []

  unfoldable pub set_field : Field → Option Decimal → Row → Row
  set_field f v row = record row {
    value = record row.value { metrics = put f (stored_value v) row.value.metrics };
  }

  -- `setattr` on the object that stands for the row `id`
  unfoldable pub set_in_rows : ℕ → Field → Option Decimal → List Row → List Row
  unfolding set_field
  set_in_rows id f v [] = []
  set_in_rows id f v (row ∷ rows) =
      (if row.id == id then set_field f v row else row) ∷ set_in_rows id f v rows
