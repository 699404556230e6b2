-- ===== src/Backfill/Tables.antt =====
-- The ledger of chief-of-staff/backend/app/models/torqueai_backfill.py, as the operations of
-- chief-of-staff/backend/app/connectors/torqueai_backfill_control.py read and write it. A date is the
-- number of days since day 0 and a time a number of seconds. Columns that always hold the same value,
-- the images of an identity and the table of update evidence are left out. The unique constraints make
-- the row that an id names the only one.
use polaris_lab.Base.{find_first, change_first, ℕ, String, Bool, ◌&&◌, Option, List, str_eq}

pub record Interval : Type 0 where
  pub date_from : ℕ
  pub date_to : ℕ

-- The states of a window and of an attempt.
pub data Status : Type 0 where
  planned previewing previewed approved running completed failed blocked : Status

pub data Classification : Type 0 where
  would_insert would_update unchanged identity_conflict : Classification
  other_classification : String → Classification

pub record Manifest : Type 0 where
  pub id : String
  pub organization_id : String
  pub request_key : String
  pub operator : String
  pub code_sha : String
  pub created_at : ℕ

pub record Window : Type 0 where
  pub id : String
  pub organization_id : String
  pub manifest_id : String
  pub interval : Interval
  pub status : Status
  pub created_at : ℕ
  pub started_at : Option ℕ
  pub completed_at : Option ℕ
  pub approved_at : Option ℕ
  pub approved_by : Option String
  pub active_attempt_id : Option String
  pub lease_until : Option ℕ

-- The row of a provider identity; `quarantined` is 0 or 1 in the table.
pub record Identity : Type 0 where
  pub id : String
  pub organization_id : String
  pub attempt_id : String
  pub provider_load_number : String
  pub provider_order_number : String
  pub classification : Classification
  pub quarantined : Bool
  pub conflicting_order_numbers : List String

pub record Organization : Type 0 where
  pub id : String
  pub slug : String
  pub status : String

module _ (Evidence : Type 0) where
  pub record Attempt : Type 0 where
    pub id : String
    pub organization_id : String
    pub window_id : String
    pub request_key : String
    pub operator : String
    pub code_sha : String
    pub started_at : ℕ
    pub completed_at : Option ℕ
    pub status : Status
    pub evidence : Option Evidence
    pub evidence_fingerprint : Option String

  -- `drawn` counts the ids that were drawn from the library's generator.
  pub record Ledger : Type 0 where
    pub manifests : List Manifest
    pub windows : List Window
    pub attempts : List Attempt
    pub identities : List Identity
    pub drawn : ℕ

unfoldable pub is_window : String → String → Window → Bool
is_window organization_id id w = str_eq w.organization_id organization_id && str_eq w.id id

abbrev pub find_window : String → String → List Window → Option Window
find_window organization_id id windows = find_first (is_window organization_id id) windows

-- `update(WINDOW).where(...)`
abbrev pub update_window : String → String → (Window → Window) → List Window → List Window
update_window organization_id id change windows =
    change_first (is_window organization_id id) change windows

module _ {Evidence : Type 0} where
  unfoldable pub is_attempt : String → String → Attempt Evidence → Bool
  is_attempt organization_id id a = str_eq a.organization_id organization_id && str_eq a.id id

  -- `update(ATTEMPT).where(...)`
  abbrev pub update_attempt :
      String
      → String
      → (Attempt Evidence → Attempt Evidence)
      → List (Attempt Evidence)
      → List (Attempt Evidence)
  update_attempt organization_id id change attempts =
      change_first (is_attempt organization_id id) change attempts

  -- An attempt of a window, by its id or by its request key.
  abbrev pub find_attempt :
      (Attempt Evidence → Bool) → List (Attempt Evidence) → Option (Attempt Evidence)
  find_attempt test attempts = find_first test attempts
