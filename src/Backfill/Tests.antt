-- ===== src/Backfill/Tests.antt =====
-- A backfill of one tenant: a plan of two windows out of order, and a window that is approved.
mod Data
use polaris_lab.Base.{
  find_first, change_first, ℕ, String, true, false, ◌==◌, Option, none, some, List, [], ◌∷◌, ◌≡◌,
  ◌⊎◌, refl, inr, if◌then◌else◌,
}
use polaris_lab.Base.Int.{ℤ, pos}
use polaris_lab.Python.Text.{strip}
use polaris_lab.Backfill.Control.{
  Controlled, control_error, done, check_label, check_sha, has_control, all_hex,
}
use polaris_lab.Backfill.Tables.{
  Interval, Status, approved, planned, previewing, blocked, failed, would_insert, identity_conflict,
  Window, Organization, Attempt, Ledger, find_window, is_window, update_window, find_attempt,
  is_attempt, update_attempt,
}
use polaris_lab.Backfill.Reports.{Counts, ReportedIdentity, Report, Evidence}
use polaris_lab.Backfill.Evidence.{
  preview_evidence, bounded_counts, check_labels, check_identities, check_identity, check_outcome,
}
use polaris_lab.Backfill.Plan.{
  validate_window, validate_windows, sort_intervals, overlapping, overlaps_window, any_planned,
  find_manifest, new_windows, plan,
}
use polaris_lab.Backfill.Preview.{
  approve, begin_preview, finish_preview, preview, fetched, new_identities, attempt_by_id,
}
use polaris_lab.Backfill.Moves.{AllMove, AreFresh}
use polaris_lab.Backfill.Steps.{plans, grants, Runs, here, next, Step-AllMove, approval_final}
use polaris_lab.Backfill.Disjoint.{IsOrderly}
use polaris_lab.Backfill.Disjoint.Plans.{Runs-IsOrderly}
use polaris_lab.Backfill.Retry.{plan_again}
use polaris_lab.Backfill.Repeat.{finish_again}
use polaris_lab.Backfill.Sound.{IsSound}
use polaris_lab.Backfill.Sound.Kept.{preview_evidence-IsSound}
use polaris_lab.Backfill.Verdicts.{quarantine_lasts}
use polaris_lab.Backfill.Previews.{Previews, preview-Previews}
use polaris_lab.Backfill.Tests.Data.{
  organizations, uuid, fingerprint, empty_ledger, later_week, first_week, code_sha, window_of,
  two_planned, approved_window, approved_ledger, counts_of, insert_identity, insert_report,
  insert_evidence, attempt_of, quarantined_ledger, ledger_after, second_finish, older_ledger,
  planned_from, first_plan,
}

plan_sorted :
    plan organizations uuid "org" "key" "ann" code_sha (later_week ∷ first_week ∷ []) 5 empty_ledger
    ≡ done ("manifest", two_planned)
unfolding plan sort_intervals check_label check_sha has_control all_hex strip validate_windows
    validate_window overlapping find_first any_planned overlaps_window new_windows
plan_sorted = refl

Step-AllMove_example : AllMove AreFresh [] two_planned.windows
Step-AllMove_example =
    Step-AllMove organizations uuid fingerprint empty_ledger two_planned
      (plans "org" "key" "ann" code_sha (later_week ∷ first_week ∷ []) 5 "manifest" plan_sorted)

one_plan : Runs organizations uuid fingerprint empty_ledger two_planned
one_plan =
    next here
      (plans "org" "key" "ann" code_sha (later_week ∷ first_week ∷ []) 5 "manifest" plan_sorted)

Runs-IsOrderly_example : IsOrderly two_planned.windows
Runs-IsOrderly_example =
    Runs-IsOrderly organizations uuid fingerprint empty_ledger two_planned one_plan (tt, tt)

approved_again :
    approve organizations uuid fingerprint "org" "first" "ann" 12 approved_ledger
    ≡ done approved_ledger
unfolding approve check_label has_control strip find_first is_window
approved_again = refl

found_approved : find_window "org" "first" approved_ledger.windows ≡ some approved_window
unfolding find_first is_window
found_approved = refl

approval_final_example : find_window "org" "first" approved_ledger.windows ≡ some approved_window
approval_final_example =
    approval_final organizations uuid fingerprint "org" "first" approved_window approved_ledger
      approved_ledger (next here (grants "org" "first" "ann" 12 approved_again)) (inr refl, tt)
      found_approved refl

insert_kept : preview_evidence (insert_report first_week) first_week ≡ done insert_evidence
unfolding preview_evidence bounded_counts check_labels check_identities check_identity check_outcome
insert_kept = refl

preview_evidence-IsSound_example : IsSound (insert_report first_week) first_week insert_evidence
preview_evidence-IsSound_example =
    preview_evidence-IsSound (insert_report first_week) first_week insert_evidence insert_kept

-- A preview of the first window, which is clean.
preview_clean :
    (preview organizations uuid fingerprint insert_report "org" "first" "try" "ann" code_sha 20 30
      31 two_planned).0
    ≡ done (fetched (insert_report first_week))
unfolding preview begin_preview finish_preview check_label check_sha has_control all_hex strip
    find_first is_window change_first is_attempt preview_evidence bounded_counts check_labels
    check_identities check_identity check_outcome new_identities
preview_clean = refl

preview-Previews_example :
    let out =
      preview organizations uuid fingerprint insert_report "org" "first" "try" "ann" code_sha 20 30
        31 two_planned in
    Runs organizations uuid fingerprint two_planned out.1
    × Previews organizations uuid fingerprint insert_report "org" "first" "try" "ann" code_sha 20 30
        31 two_planned out
preview-Previews_example =
    preview-Previews organizations uuid fingerprint insert_report "org" "first" "try" "ann" code_sha
      20 30 31 two_planned

found_again :
    attempt_by_id organizations uuid fingerprint "org" "first" "again" quarantined_ledger
    ≡ some (attempt_of "again" none previewing)
unfolding find_first is_attempt
found_again = refl

second_blocked : second_finish ≡ done (blocked, ledger_after second_finish)
unfolding finish_preview find_first is_window change_first is_attempt preview_evidence
    bounded_counts check_labels check_identities check_identity check_outcome new_identities
second_blocked = refl

quarantine_lasts_example : (blocked ≡ failed) ⊎ (blocked ≡ blocked)
quarantine_lasts_example =
    quarantine_lasts organizations uuid fingerprint "org" "first" "again" (insert_report first_week)
      30 31 blocked (attempt_of "again" none previewing) quarantined_ledger quarantined_ledger
      (ledger_after second_finish) here refl found_again refl second_blocked

planned_once : first_plan ≡ done ("manifest", planned_from first_plan)
unfolding plan sort_intervals check_label check_sha has_control all_hex strip validate_windows
    validate_window overlapping find_first any_planned overlaps_window new_windows
planned_once = refl

plan_again_example :
    plan organizations uuid "org" "key" "ann" code_sha
      (later_week ∷ first_week ∷ [])
      700
      (planned_from first_plan)
    ≡ done ("manifest", planned_from first_plan)
plan_again_example =
    plan_again organizations uuid "org" "key" "ann" code_sha (later_week ∷ first_week ∷ []) 5 700
      "manifest" older_ledger (planned_from first_plan) (refl, tt) planned_once

finish_again_example :
    finish_preview organizations uuid fingerprint "org" "first" "again"
      (insert_report first_week)
      50
      51
      (ledger_after second_finish)
    ≡ done (blocked, ledger_after second_finish)
finish_again_example =
    finish_again organizations uuid fingerprint "org" "first" "again" (insert_report first_week) 30
      31 50 51 blocked quarantined_ledger (ledger_after second_finish) second_blocked
