-- ===== src/Backfill/Sound/Kept.antt =====
-- `_preview_evidence` of chief-of-staff/backend/app/connectors/torqueai_backfill_control.py as a whole: its
-- counts, its outcome and what it keeps.
use polaris_lab.Base.{
  ℕ, ◌≤◌, ◌&&◌, ◌||◌, not, ltb, leb, ◌==◌, Bool, true, false, List, [], ◌∷◌, length, str_eq, ◌≡◌,
  refl, ap, inl, inr, Bool-cases, arith,
}
use polaris_lab.Base.Int.{ℤ, pos, negsuc}
use polaris_lab.Backfill.Control.{
  control_error, done, refuse_if, Done, reached, Done-at, refuse_if-Done, >>-Done, >>=-Done,
  refuse_if-eq-done, done-inj,
}
use polaris_lab.Backfill.Tables.{Interval, would_insert, would_update, unchanged, identity_conflict}
use polaris_lab.Backfill.Reports.{Counts, ReportedIdentity, Report, Evidence}
use polaris_lab.Backfill.Evidence.{
  same_interval, any_flag, bounded_count, bounded_counts, check_labels, is_nil, check_identities,
  count_of, counts_differ, no_identities, check_outcome, preview_evidence,
}
use polaris_lab.Backfill.Sound.{IsCount, AreCounts, IsOutcome, IsSound}
use polaris_lab.Backfill.Sound.Identities.{AreNew, check_identities-AreNew}

small : (k : ℕ) → leb k 1000 ≡ true → k ≤ 1000
small k h = ground arith

bounded_count-IsCount : (z : ℤ) (n : ℕ) → bounded_count z ≡ done n → IsCount z n
bounded_count-IsCount (negsuc k) n h = cc
bounded_count-IsCount (pos k) n h = elim (Bool-cases (leb k 1000)) [
  | inl e ↦
      let returned : done k ≡ done n = rw e at h in
      let same : k ≡ n = done-inj returned in (ap pos same, rw (← same) (small k e))
  | inr e ↦ let refused : control_error "Invalid bounded preview count" ≡ done n = rw e at h in cc
]

bounded_counts-AreCounts : (c : Counts ℤ) → Done (AreCounts c) (bounded_counts c)
unfolding bounded_counts
bounded_counts-AreCounts c =
    >>=-Done (AreCounts c) (bounded_count c.provider_records_received) _ λ n1 h1.
      >>=-Done (AreCounts c) (bounded_count c.validated_records) _ λ n2 h2.
        >>=-Done (AreCounts c) (bounded_count c.would_inserts) _ λ n3 h3.
          >>=-Done (AreCounts c) (bounded_count c.would_updates) _ λ n4 h4.
            >>=-Done (AreCounts c) (bounded_count c.unchanged_records) _ λ n5 h5.
              >>=-Done (AreCounts c) (bounded_count c.identity_conflicts) _ λ n6 h6.
                >>=-Done (AreCounts c) (bounded_count c.missing_usable_lane_stops) _ λ n7 h7.
                  reached (
                    bounded_count-IsCount _ n1 h1,
                    bounded_count-IsCount _ n2 h2,
                    bounded_count-IsCount _ n3 h3,
                    bounded_count-IsCount _ n4 h4,
                    bounded_count-IsCount _ n5 h5,
                    bounded_count-IsCount _ n6 h6,
                    bounded_count-IsCount _ n7 h7,
                  )

no_identities-eq :
    (identities : List ReportedIdentity) → no_identities identities ≡ true → identities ≡ []
no_identities-eq [] h = refl
no_identities-eq (i ∷ identities) h = cc

tallied :
    (n v p : ℕ) (c : Counts ℕ) (identities : List ReportedIdentity)
    → (not (n == v) || not (p == n) || counts_differ c identities) ≡ false
    → (n ≡ v) × (counts_differ c identities ≡ false)
tallied n v p c identities h = ground arith

counts_agree :
    (a b d e a' b' d' e' : ℕ)
    → (not (a == a') || not (b == b') || not (d == d') || not (e == e')) ≡ false
    → (a ≡ a') × (b ≡ b') × (d ≡ d') × (e ≡ e')
counts_agree a b d e a' b' d' e' h = ground arith

failure : (f n v : Bool) → (not f || not n || v) ≡ false → (f ≡ true) × (n ≡ true)
failure f n v h = ground arith

check_outcome-IsOutcome :
    (r : Report) (c : Counts ℕ) (u : Unit {0})
    → check_outcome r c ≡ done u
    → IsOutcome r.status c r.identities
unfolding check_outcome
check_outcome-IsOutcome r c u h = elim (Bool-cases (str_eq r.status "success")) [
  | inl e ↦
      let checked =
        refuse_if-eq-done
          (not (length r.identities == c.validated_records)
            || not (r.pagination.provider_total_count == length r.identities)
            || counts_differ c r.identities)
          "Preview identity/count mismatch" (rw e at h) in
      let (n, same) =
        tallied (length r.identities) c.validated_records r.pagination.provider_total_count c
          r.identities checked in
      let (a, b, d, k) =
        counts_agree (count_of would_insert r.identities) (count_of would_update r.identities)
          (count_of unchanged r.identities) (count_of identity_conflict r.identities)
          c.would_inserts c.would_updates c.unchanged_records c.identity_conflicts same in
      inl (e, (n, a, b, d, k))
  | inr e ↦
      let checked =
        refuse_if-eq-done
          (not (str_eq r.status "failed")
            || not (no_identities r.identities)
            || is_nil r.validation_failures)
          "Invalid failure evidence" (rw e at h) in
      let (f, n) =
        failure (str_eq r.status "failed") (no_identities r.identities)
          (is_nil r.validation_failures) checked in
      inr (f, no_identities-eq r.identities n)
]

both_same : (a b c d : ℕ) → not (a == b && c == d) ≡ false → (a ≡ b) × (c ≡ d)
both_same a b c d h = ground arith

interval_eq : (i j : Interval) → not (same_interval i j) ≡ false → i ≡ j
interval_eq i j h =
    let (from_same, to_same) = both_same i.date_from j.date_from i.date_to j.date_to h in cc

-- The evidence that is kept of a report is sound: it is about the interval of the window, its seven counts
-- are those of the report and none is above 1000, no two of its identities have the same load and order,
-- every conflict names at least two orders with its own and what is no conflict names none, and a success
-- has as many identities of each class as it counts, a failure none at all.
pub preview_evidence-IsSound :
    (report : Report) (window : Interval) (evidence : Evidence)
    → preview_evidence report window ≡ done evidence
    → IsSound report window evidence
unfolding preview_evidence
preview_evidence-IsSound report window evidence h =
    Done-at (IsSound report window) (preview_evidence report window) h (
      refuse_if-Done (IsSound report window) (not (same_interval report.request window))
        "Preview source interval mismatch" _
        λ same.
          >>-Done (IsSound report window)
            (refuse_if
              (not (str_eq report.mode "historical_preview")
                || not (str_eq report.provider "torqueai"))
              "Existing TorqueAI preview evidence required")
            _
            (>>-Done (IsSound report window)
              (refuse_if (any_flag report.flags) "Read-only preview evidence required") _
              (>>=-Done (IsSound report window) (bounded_counts report.counts) _ λ counts counted.
                >>-Done (IsSound report window)
                  (refuse_if
                    (not (report.pagination.page_size == 100)
                      || ltb 10 report.pagination.pages_fetched
                      || not (length report.pagination.pages == report.pagination.pages_fetched))
                    "Invalid preview pagination")
                  _
                  (>>-Done (IsSound report window) (check_labels report.validation_failures) _ (
                    >>=-Done (IsSound report window) (check_identities report.identities []) _
                      λ u checked.
                        >>=-Done (IsSound report window) (check_outcome report counts) _
                          λ v outcome.
                            let (_, distinct, justified) =
                              Done-at (AreNew report.identities [])
                                (check_identities report.identities []) checked
                                (check_identities-AreNew report.identities []) in
                            reached (
                              interval_eq report.request window same,
                              Done-at (AreCounts report.counts) (bounded_counts report.counts)
                                  counted (bounded_counts-AreCounts report.counts),
                              refl,
                              distinct,
                              justified,
                              check_outcome-IsOutcome report counts v outcome,
                            ))))))
