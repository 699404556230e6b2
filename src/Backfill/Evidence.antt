-- ===== src/Backfill/Evidence.antt =====
-- `_preview_evidence` of chief-of-staff/backend/app/connectors/torqueai_backfill_control.py: what is kept
-- of the report of a preview. The report has the fields and the types that preview_torqueai_history gives
-- it; the update reviews, which another module checks, are left out.
use polaris_lab.Base.{
  ℕ, suc, String, Bool, true, false, ◌&&◌, ◌||◌, not, List, [], ◌∷◌, length, ltb, leb, ◌==◌, str_eq,
  contains, if◌then◌else◌,
}
use polaris_lab.Base.Int.{ℤ, pos, negsuc}
use polaris_lab.Python.Text.{is_empty, text_length}
use polaris_lab.Backfill.Control.{
  Controlled, control_error, done, ◌>>=◌, ◌>>◌, refuse_if, check_label,
}
use polaris_lab.Backfill.Tables.{
  Interval, Classification, would_insert, would_update, unchanged, identity_conflict,
  other_classification,
}
use polaris_lab.Backfill.Reports.{Counts, Evidence, Flags, Report, ReportedIdentity}

abbrev pub same_interval : Interval → Interval → Bool
same_interval i j = i.date_from == j.date_from && i.date_to == j.date_to

abbrev pub any_flag : Flags → Bool
any_flag f =
    f.database_writes || f.provider_writes || f.checkpoint_modified || f.claims_modified
    || f.raw_provider_payload_returned

-- `0 <= value <= 1000`
abbrev pub bounded_count : ℤ → Controlled ℕ
bounded_count (pos n) = if leb n 1000 then done n else control_error "Invalid bounded preview count"
bounded_count (negsuc n) = control_error "Invalid bounded preview count"

unfoldable pub bounded_counts : Counts ℤ → Controlled (Counts ℕ)
bounded_counts c = do
  received ← bounded_count c.provider_records_received
  validated ← bounded_count c.validated_records
  inserts ← bounded_count c.would_inserts
  updates ← bounded_count c.would_updates
  same ← bounded_count c.unchanged_records
  conflicts ← bounded_count c.identity_conflicts
  missing ← bounded_count c.missing_usable_lane_stops
  done (record {
    provider_records_received = received;
    validated_records = validated;
    would_inserts = inserts;
    would_updates = updates;
    unchanged_records = same;
    identity_conflicts = conflicts;
    missing_usable_lane_stops = missing;
  })

unfoldable pub check_labels : List String → Controlled (Unit {0})
check_labels [] = done tt
check_labels (code ∷ codes) = check_label code >> check_labels codes

abbrev pub same_key : ReportedIdentity → ReportedIdentity → Bool
same_key i j =
    str_eq i.provider_load_number j.provider_load_number
    && str_eq i.provider_order_number j.provider_order_number

abbrev pub is_seen : ReportedIdentity → List ReportedIdentity → Bool
is_seen i [] = false
is_seen i (j ∷ seen) = same_key i j || is_seen i seen

abbrev pub is_counted : Classification → Bool
is_counted (other_classification c) = false
is_counted _ = true

abbrev pub is_conflict : Classification → Bool
is_conflict identity_conflict = true
is_conflict _ = false

-- `len(set(values))`
abbrev pub distinct_count : List String → ℕ
distinct_count [] = 0
distinct_count (v ∷ values) =
    let rest = distinct_count values in if contains v values then rest else suc rest

abbrev pub any_bad_order : List String → Bool
any_bad_order [] = false
any_bad_order (v ∷ values) = is_empty v || ltb 255 (text_length v) || any_bad_order values

abbrev pub is_nil : List String → Bool
is_nil [] = true
is_nil (_ ∷ _) = false

-- The conflicting orders are there exactly for a conflict, at least two, the identity's own among them.
abbrev pub bad_conflicts : ReportedIdentity → Bool
bad_conflicts i =
    any_bad_order i.conflicting_order_numbers
    || (is_conflict i.classification
        && (ltb (distinct_count i.conflicting_order_numbers) 2
            || not (contains i.provider_order_number i.conflicting_order_numbers)))
    || (not (is_conflict i.classification) && not (is_nil i.conflicting_order_numbers))

unfoldable pub check_identity : ReportedIdentity → List ReportedIdentity → Controlled (Unit {0})
check_identity i seen = do
  refuse_if
      (is_empty i.provider_load_number
        || is_empty i.provider_order_number
        || ltb 120 (text_length i.provider_load_number)
        || ltb 255 (text_length i.provider_order_number))
      "Invalid exact provider identity"
  refuse_if (is_seen i seen || not (is_counted i.classification))
      "Duplicate identity/invalid classification"
  refuse_if (bad_conflicts i) "Invalid conflict quarantine evidence"

-- The loop over the identities.
unfoldable pub check_identities :
    List ReportedIdentity → List ReportedIdentity → Controlled (Unit {0})
check_identities [] seen = done tt
check_identities (i ∷ identities) seen =
    check_identity i seen >> check_identities identities (i ∷ seen)

abbrev same_class : Classification → Classification → Bool
same_class would_insert would_insert = true
same_class would_update would_update = true
same_class unchanged unchanged = true
same_class identity_conflict identity_conflict = true
same_class _ _ = false

abbrev pub count_of : Classification → List ReportedIdentity → ℕ
count_of c [] = 0
count_of c (i ∷ identities) =
    let rest = count_of c identities in if same_class i.classification c then suc rest else rest

abbrev pub counts_differ : Counts ℕ → List ReportedIdentity → Bool
counts_differ c identities =
    not (count_of would_insert identities == c.would_inserts)
    || not (count_of would_update identities == c.would_updates)
    || not (count_of unchanged identities == c.unchanged_records)
    || not (count_of identity_conflict identities == c.identity_conflicts)

abbrev pub no_identities : List ReportedIdentity → Bool
no_identities [] = true
no_identities (_ ∷ _) = false

-- The last check, by the status of the report.
unfoldable pub check_outcome : Report → Counts ℕ → Controlled (Unit {0})
check_outcome report c =
    if str_eq report.status "success"
    then refuse_if
        (not (length report.identities == c.validated_records)
          || not (report.pagination.provider_total_count == length report.identities)
          || counts_differ c report.identities)
        "Preview identity/count mismatch"
    else refuse_if
        (not (str_eq report.status "failed")
          || not (no_identities report.identities)
          || is_nil report.validation_failures)
        "Invalid failure evidence"

-- `_preview_evidence`
unfoldable pub preview_evidence : Report → Interval → Controlled Evidence
preview_evidence report window = do
  refuse_if (not (same_interval report.request window)) "Preview source interval mismatch"
  refuse_if
      (not (str_eq report.mode "historical_preview") || not (str_eq report.provider "torqueai"))
      "Existing TorqueAI preview evidence required"
  refuse_if (any_flag report.flags) "Read-only preview evidence required"
  counts ← bounded_counts report.counts
  refuse_if
      (not (report.pagination.page_size == 100)
        || ltb 10 report.pagination.pages_fetched
        || not (length report.pagination.pages == report.pagination.pages_fetched))
      "Invalid preview pagination"
  check_labels report.validation_failures
  check_identities report.identities []
  check_outcome report counts
  done (record {
    request = report.request;
    status = report.status;
    counts = counts;
    pagination = report.pagination;
    returned_ship_dates = report.returned_ship_dates;
    validation_failures = report.validation_failures;
    identities = report.identities;
  })
