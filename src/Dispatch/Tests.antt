-- ===== src/Dispatch/Tests.antt =====
-- A run of one organization: a provider with one dispatch on one page, and a database that refuses nothing.
mod Data
use polaris_lab.Python.Float.{float_bound}
use polaris_lab.Base.{
  find_first, change_first, any_of, ◌==◌, ◌⊎◌, inl, inr, arith, ℕ, String, true, false, Option,
  none, some, List, [], ◌∷◌, ◌+◌, ◌≤◌, ◌≡◌, refl, str_eq, if◌then◌else◌,
}
use polaris_lab.Base.Int.{pos}
use polaris_lab.Python.Value.{Value, int, text, list, object, Fields, nil, cons, end, field, lookup}
use polaris_lab.Python.Decimal.{Decimal, finite, Reader}
use polaris_lab.Python.Text.{strip, str_int}
use polaris_lab.Utilization.Http.{Sent, answered}
use polaris_lab.Dispatch.Call.{Call, returned, Returns}
use polaris_lab.Dispatch.Request.{
  Settings, SplitUrl, DispatchRequest, rstrip_slashes, validate_request_bounds,
}
use polaris_lab.Dispatch.Connector.{
  DispatchPage, fetch_dispatches, parse_dispatch_page, status_error, validated_configuration,
}
use polaris_lab.Dispatch.Normalize.{
  NormalizedDispatch, canonical_text, normalize_dispatch, normalize_each, normalize_pages,
  normalize_records, optional_decimal, optional_text,
}
use polaris_lab.Dispatch.Tables.{find_run, DispatchRow, DispatchTables, DispatchSession, change_run}
use polaris_lab.Dispatch.Persist.{RunCounts, Ingestion, find_row, change_row, put_items, put_state}
use polaris_lab.Dispatch.Fetch.{Connector, fetch_all, fetch_rest, required_pages}
use polaris_lab.Dispatch.Ingest.{Refusals, ingest_dispatches}
use polaris_lab.Dispatch.Outcomes.{IsReplayed, ingest-IsReplayed, ingest_bound}
use polaris_lab.Dispatch.Atomic.{IsAtomic, ingest-IsAtomic}
use polaris_lab.Dispatch.Served.{pages_from, IsServed}
use polaris_lab.Dispatch.Succeeds.{IsSuccess, ingest_succeeds}
use polaris_lab.Utilization.Reconciliation.Schedule.{is_lower_of, lower_code}
use polaris_lab.Dispatch.Service.{IngestionService, dispatch_ingestion}
use polaris_lab.Dispatch.Once.{
  Event, scheduled, by_hand, AreDifferent, claims_of, claims-AreDifferent,
}
use polaris_lab.Dispatch.Slots.{
  Sync, ScheduledResult, already_claimed_result, executed_result, scheduled_sync_enabled,
  slot_and_window, find_active, has_slot, has_run_id, synced,
}
use polaris_lab.Dispatch.Schedule.{
  claim_scheduled_run, resolve_scheduled_organization, prepare_run, run_scheduled,
}
use polaris_lab.Dispatch.Claims.{opened}
use polaris_lab.Dispatch.Pages.{IsAnswer, fetch-IsAnswer, fetch-IsSingle}
use polaris_lab.Dispatch.Distinct.{AreNormal, normalize_pages-AreNormal}
use polaris_lab.Dispatch.Tests.Data.{
  mor, morning, repeated, grants_claims, week, week_connector, week_client, parse_week, read_halves,
  plain, digest, parse_date, split_url, settings, one_dispatch, payload, client, connector,
  refuses_nothing, same_decimal, one_day, no_tables, empty_session, normalize, first_run,
  one_inserted, one_page, second_dispatch, dispatch_at, page_at, payload_at, paged_client,
  paged_connector, item_of, two_items,
}
use polaris_lab.Dispatch.Twice.{IsUntouched, put_again-IsUntouched}

first_run_inserts : (first_run.0.0 ≡ returned one_inserted) × (first_run.1 ≡ 1)
unfolding canonical_text change_first fetch_all fetch_dispatches fetch_rest find_first float_bound
    ingest_dispatches lookup normalize_dispatch normalize_each normalize_pages normalize_records
    optional_decimal optional_text parse_dispatch_page put_items put_state required_pages
    rstrip_slashes status_error str_int strip validate_request_bounds validated_configuration
first_run_inserts = (refl, refl)

-- The same run once more leaves the row unchanged.
second_run_keeps :
    (ingest_dispatches refuses_nothing same_decimal normalize connector one_day first_run.0.1 1).0.0
    ≡ returned (record one_inserted { rows_inserted = 0; rows_unchanged = 1 })
unfolding canonical_text change_first fetch_all fetch_dispatches fetch_rest find_first float_bound
    ingest_dispatches lookup normalize_dispatch normalize_each normalize_pages normalize_records
    optional_decimal optional_text parse_dispatch_page put_items put_state required_pages
    rstrip_slashes status_error str_int strip validate_request_bounds validated_configuration
second_run_keeps = refl

ingest-IsAtomic_example : IsAtomic one_day empty_session first_run.0
ingest-IsAtomic_example =
    ingest-IsAtomic refuses_nothing same_decimal normalize connector
      (fetch-IsSingle parse_date split_url client settings "mor-logistics") one_day empty_session 0

ingest-IsReplayed_example : IsReplayed same_decimal one_day empty_session first_run.0
ingest-IsReplayed_example =
    ingest-IsReplayed same_decimal refuses_nothing normalize connector
      (fetch-IsSingle parse_date split_url client settings "mor-logistics") one_day empty_session 0

ingest_bound_example : first_run.1 ≤ 0 + 10
ingest_bound_example =
    ingest_bound same_decimal refuses_nothing normalize connector
      (fetch-IsSingle parse_date split_url client settings "mor-logistics") one_day empty_session 0

fetch-IsAnswer_example :
    IsAnswer parse_date split_url client 0 739621 739621 1 100 (connector 0 739621 739621 1 100)
fetch-IsAnswer_example =
    fetch-IsAnswer parse_date split_url client settings "mor-logistics" 0 739621 739621 1 100

normalize_pages-AreNormal_example :
    Returns
      (AreNormal read_halves plain digest)
      (normalize_pages read_halves plain digest (one_page ∷ []))
normalize_pages-AreNormal_example =
    normalize_pages-AreNormal read_halves plain digest (one_page ∷ [])

answers_page :
    (sent n : ℕ)
    → (n ≡ 1) ⊎ (n ≡ 2)
    → (paged_connector sent 739621 739621 n 100).0 ≡ returned (page_at n)
unfolding fetch_dispatches lookup parse_dispatch_page rstrip_slashes status_error strip
    validate_request_bounds validated_configuration
answers_page sent n (inl h) = rw h refl
answers_page sent n (inr h) = rw h refl

one_or_two : (n : ℕ) → 1 ≤ n → n ≤ 2 → (n ≡ 1) ⊎ (n ≡ 2)
one_or_two n h k = omega arith

paged_IsServed : IsServed paged_connector 739621 739621 page_at 1
paged_IsServed = record {
  answers = λ sent n h k. answers_page sent n (one_or_two n h k);
  agrees = λ n h k. refl;
  sized = omega arith;
  small = omega arith;
  needed = (omega arith, inr (omega arith));
  few = omega arith;
}

two_pages_normal : normalize (pages_from page_at 2 1) ≡ returned two_items
unfolding canonical_text lookup normalize_dispatch normalize_each normalize_pages normalize_records
    optional_decimal optional_text str_int strip
two_pages_normal = refl

ingest_succeeds_example :
    IsSuccess 2 2
      (ingest_dispatches refuses_nothing same_decimal normalize paged_connector one_day
        empty_session 0).0.0
ingest_succeeds_example =
    ingest_succeeds refuses_nothing same_decimal (λ t. refl) normalize paged_connector one_day
      page_at 1 paged_IsServed two_items refl two_pages_normal empty_session 0 (omega arith)
      (omega arith) tt

abbrev two_rows : List DispatchRow
two_rows = (put_items "org" same_decimal 2 two_items [] one_inserted).0

put_again-IsUntouched_example :
    IsUntouched 2 two_rows one_inserted
      (put_items "org" same_decimal 9 two_items two_rows one_inserted)
put_again-IsUntouched_example =
    put_again-IsUntouched read_halves plain digest (pages_from page_at 2 1) two_items
      two_pages_normal "org" same_decimal 2 9 [] one_inserted one_inserted

abbrev weekly : IngestionService
weekly =
    dispatch_ingestion same_decimal refuses_nothing normalize week_connector
      (fetch-IsSingle parse_week split_url week_client settings "mor-logistics")

abbrev scheduled_run : (Sync ScheduledResult × DispatchSession) × ℕ
scheduled_run = run_scheduled grants_claims (mor ∷ []) weekly.ingestion morning (opened no_tables) 0

-- The first trigger of an hour ingests its week, and the second one is told that it came second.
triggers_claim_once :
    (scheduled_run.0.0 ≡ synced (executed_result week one_inserted))
    × ((run_scheduled grants_claims
          (mor ∷ [])
          weekly.ingestion
          repeated
          (opened scheduled_run.0.1.committed)
          1).0.0
        ≡ synced (already_claimed_result week))
unfolding canonical_text change_first claim_scheduled_run fetch_all fetch_dispatches fetch_rest
    find_first float_bound any_of ingest_dispatches lookup normalize_dispatch normalize_each
    normalize_pages normalize_records optional_decimal optional_text parse_dispatch_page prepare_run
    put_items put_state required_pages resolve_scheduled_organization rstrip_slashes run_scheduled
    scheduled_sync_enabled slot_and_window status_error str_int strip validate_request_bounds
    validated_configuration is_lower_of lower_code
triggers_claim_once = (refl, refl)

claims-AreDifferent_example : AreDifferent (
    claims_of grants_claims
      (mor ∷ [])
      weekly
      (scheduled morning ∷ by_hand one_day ∷ scheduled repeated ∷ [])
      no_tables
      0)
claims-AreDifferent_example =
    claims-AreDifferent grants_claims (mor ∷ []) weekly
      (scheduled morning ∷ by_hand one_day ∷ scheduled repeated ∷ []) no_tables 0
