-- ===== src/Backfill/Sound.antt =====
-- What `_preview_evidence` of chief-of-staff/backend/app/connectors/torqueai_backfill_control.py lets through.
pub mod Identities
pub mod Kept
use polaris_lab.Base.{
  ℕ, ◌≤◌, ◌&&◌, ◌||◌, not, ltb, leb, ◌==◌, String, Bool, true, false, List, [], ◌∷◌, All, length,
  contains, str_eq, ◌≡◌, refl, ap, ◌⊎◌, inl, inr, Bool-cases, arith,
}
use polaris_lab.Base.Int.{ℤ, pos, negsuc}
use polaris_lab.Backfill.Control.{
  refuse_if-last, control_error, done, refuse_if, Done, reached, Done-at, refuse_if-Done, >>-Done,
  >>=-Done, Done-map, refuse_if-eq-done, done-inj,
}
use polaris_lab.Backfill.Tables.{Interval, would_insert, would_update, unchanged, identity_conflict}
use polaris_lab.Backfill.Reports.{Counts, ReportedIdentity, Report, Evidence}
use polaris_lab.Backfill.Evidence.{
  same_interval, any_flag, bounded_count, bounded_counts, check_labels, same_key, is_seen,
  is_counted, is_conflict, distinct_count, any_bad_order, is_nil, bad_conflicts, check_identity,
  check_identities, count_of, counts_differ, no_identities, check_outcome, preview_evidence,
}

abbrev pub IsCount : ℤ → ℕ → Type 0
IsCount z n = (z ≡ pos n) × (n ≤ 1000)

-- The seven counts are those of the report, none of them above 1000.
abbrev pub AreCounts : Counts ℤ → Counts ℕ → Type 0
AreCounts c n =
    IsCount c.provider_records_received n.provider_records_received
    × IsCount c.validated_records n.validated_records
    × IsCount c.would_inserts n.would_inserts
    × IsCount c.would_updates n.would_updates
    × IsCount c.unchanged_records n.unchanged_records
    × IsCount c.identity_conflicts n.identity_conflicts
    × IsCount c.missing_usable_lane_stops n.missing_usable_lane_stops

-- No two identities have the same load and order.
abbrev pub AreDistinct : List ReportedIdentity → Type 0
AreDistinct [] = Unit
AreDistinct (i ∷ identities) = All (λ j. same_key j i ≡ false) identities × AreDistinct identities

-- A conflict names at least two orders, the identity's own among them; what is none names no order.
abbrev pub IsJustified : ReportedIdentity → Type 0
IsJustified i =
    ((is_conflict i.classification ≡ true)
      × (2 ≤ distinct_count i.conflicting_order_numbers)
      × (contains i.provider_order_number i.conflicting_order_numbers ≡ true))
    ⊎ ((is_conflict i.classification ≡ false) × (i.conflicting_order_numbers ≡ []))

abbrev Tallies : Counts ℕ → List ReportedIdentity → Type 0
Tallies c identities =
    (length identities ≡ c.validated_records)
    × (count_of would_insert identities ≡ c.would_inserts)
    × (count_of would_update identities ≡ c.would_updates)
    × (count_of unchanged identities ≡ c.unchanged_records)
    × (count_of identity_conflict identities ≡ c.identity_conflicts)

-- A success counts its identities; a failure has none.
abbrev pub IsOutcome : String → Counts ℕ → List ReportedIdentity → Type 0
IsOutcome status c identities =
    ((str_eq status "success" ≡ true) × Tallies c identities)
    ⊎ ((str_eq status "failed" ≡ true) × (identities ≡ []))

abbrev pub IsSound : Report → Interval → Evidence → Type 0
IsSound report window e =
    (e.request ≡ window)
    × AreCounts report.counts e.counts
    × (e.identities ≡ report.identities)
    × AreDistinct e.identities
    × All IsJustified e.identities
    × IsOutcome e.status e.counts e.identities
