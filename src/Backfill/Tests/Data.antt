-- ===== src/Backfill/Tests/Data.antt =====
-- The ledgers, the answers and the rows of the backfill's tests.
use polaris_lab.Base.{
  ℕ, String, true, false, ◌==◌, Option, none, some, List, [], ◌∷◌, if◌then◌else◌,
}
use polaris_lab.Base.Int.{ℤ, pos}
use polaris_lab.Backfill.Control.{Controlled, control_error, done}
use polaris_lab.Backfill.Tables.{
  Interval, Status, approved, planned, previewing, blocked, would_insert, identity_conflict, Window,
  Organization, Attempt, Ledger,
}
use polaris_lab.Backfill.Reports.{Counts, ReportedIdentity, Report, Evidence}
use polaris_lab.Backfill.Plan.{plan}
use polaris_lab.Backfill.Preview.{finish_preview}

abbrev pub organizations : List Organization
organizations = record { id = "org"; slug = "mor-logistics"; status = "active" } ∷ []

abbrev pub uuid : ℕ → String
uuid n = if n == 0 then "manifest" else if n == 1 then "first" else "second"

abbrev pub fingerprint : Evidence → String
fingerprint e = e.status

abbrev pub empty_ledger : Ledger Evidence
empty_ledger = record { manifests = []; windows = []; attempts = []; identities = []; drawn = 0 }

abbrev pub later_week : Interval
later_week = record { date_from = 107; date_to = 113 }

abbrev pub first_week : Interval
first_week = record { date_from = 100; date_to = 106 }

abbrev pub code_sha : String
code_sha = "0123456789abcdef0123456789abcdef01234567"

abbrev pub window_of : String → Interval → Window
window_of id i = record {
  id = id;
  organization_id = "org";
  manifest_id = "manifest";
  interval = i;
  status = planned;
  created_at = 5;
  started_at = none;
  completed_at = none;
  approved_at = none;
  approved_by = none;
  active_attempt_id = none;
  lease_until = none;
}

abbrev pub two_planned : Ledger Evidence
two_planned = record {
  manifests =
      record {
        id = "manifest";
        organization_id = "org";
        request_key = "key";
        operator = "ann";
        code_sha = code_sha;
        created_at = 5;
      }
      ∷ [];
  windows = window_of "first" first_week ∷ window_of "second" later_week ∷ [];
  attempts = [];
  identities = [];
  drawn = 3;
}

abbrev pub approved_window : Window
approved_window = record (window_of "first" first_week) {
  status = approved;
  approved_by = some "ann";
  approved_at = some 9;
}

abbrev pub approved_ledger : Ledger Evidence
approved_ledger = record two_planned { windows = approved_window ∷ [] }

abbrev pub counts_of : ℤ → ℤ → Counts ℤ
counts_of inserts conflicts = record {
  provider_records_received = pos 1;
  validated_records = pos 1;
  would_inserts = inserts;
  would_updates = pos 0;
  unchanged_records = pos 0;
  identity_conflicts = conflicts;
  missing_usable_lane_stops = pos 0;
}

abbrev pub insert_identity : ReportedIdentity
insert_identity = record {
  provider_load_number = "L1";
  provider_order_number = "O1";
  classification = would_insert;
  conflicting_order_numbers = [];
}

abbrev pub insert_report : Interval → Report
insert_report i = record {
  request = i;
  mode = "historical_preview";
  provider = "torqueai";
  flags = record {
    database_writes = false;
    provider_writes = false;
    checkpoint_modified = false;
    claims_modified = false;
    raw_provider_payload_returned = false;
  };
  status = "success";
  counts = counts_of (pos 1) (pos 0);
  pagination = record {
    page_size = 100;
    pages_fetched = 1;
    provider_total_count = 1;
    pages = record { page = 1; records = 1; total_count = 1; items_per_page = 100 } ∷ [];
  };
  returned_ship_dates = record {
    minimum = none;
    maximum = none;
    outside_requested_window = 0;
    missing_or_invalid = 0;
  };
  validation_failures = [];
  identities = insert_identity ∷ [];
}

abbrev pub insert_evidence : Evidence
insert_evidence = record {
  request = first_week;
  status = "success";
  counts = record {
    provider_records_received = 1;
    validated_records = 1;
    would_inserts = 1;
    would_updates = 0;
    unchanged_records = 0;
    identity_conflicts = 0;
    missing_usable_lane_stops = 0;
  };
  pagination = (insert_report first_week).pagination;
  returned_ship_dates = (insert_report first_week).returned_ship_dates;
  validation_failures = [];
  identities = insert_identity ∷ [];
}

abbrev pub attempt_of : String → Option ℕ → Status → Attempt Evidence
attempt_of id completed_at status = record {
  id = id;
  organization_id = "org";
  window_id = "first";
  request_key = id;
  operator = "ann";
  code_sha = code_sha;
  started_at = 20;
  completed_at = completed_at;
  status = status;
  evidence = none;
  evidence_fingerprint = none;
}

-- The first window was blocked by a conflict, and is claimed again.
abbrev pub quarantined_ledger : Ledger Evidence
quarantined_ledger = record two_planned {
  windows =
      record (window_of "first" first_week) {
        active_attempt_id = some "again";
        lease_until = some 2000;
      }
      ∷ [];
  attempts = attempt_of "before" (some 25) blocked ∷ attempt_of "again" none previewing ∷ [];
  identities =
      record {
        id = "conflict";
        organization_id = "org";
        attempt_id = "before";
        provider_load_number = "L1";
        provider_order_number = "O1";
        classification = identity_conflict;
        quarantined = true;
        conflicting_order_numbers = "O1" ∷ "O2" ∷ [];
      }
      ∷ [];
}

abbrev pub ledger_after : Controlled (Status × Ledger Evidence) → Ledger Evidence
ledger_after (control_error message) = empty_ledger
ledger_after (done (status, l)) = l

abbrev pub second_finish : Controlled (Status × Ledger Evidence)
second_finish =
    finish_preview organizations uuid fingerprint "org" "first" "again" (insert_report first_week)
      30 31 quarantined_ledger

-- A ledger with a window of an older plan.
abbrev pub older_ledger : Ledger Evidence
older_ledger = record empty_ledger {
  windows =
      record (window_of "older" (record { date_from = 10; date_to = 12 })) { manifest_id = "older" }
      ∷ [];
}

abbrev pub planned_from : Controlled (String × Ledger Evidence) → Ledger Evidence
planned_from (control_error message) = empty_ledger
planned_from (done (id, l)) = l

abbrev pub first_plan : Controlled (String × Ledger Evidence)
first_plan =
    plan organizations uuid "org" "key" "ann" code_sha (later_week ∷ first_week ∷ []) 5 older_ledger
