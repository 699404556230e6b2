-- ===== src/Dispatch/Persist.antt =====
-- The second half of `ingest_torqueai_dispatches` of
-- chief-of-staff/backend/app/connectors/torqueai_ingestion.py: the rows of a batch are inserted, updated or
-- left, and the run and the state of the organization recorded. `column` is what the column of the miles
-- keeps of a decimal. The unique constraint makes the row that an identity names the only one.
use polaris_lab.Base.{
  find_first, change_first, ℕ, suc, String, Bool, ◌&&◌, Option, none, some, List, [], ◌∷◌, ◌++◌,
  str_eq, if◌then◌else◌,
}
use polaris_lab.Python.Decimal.{Decimal}
use polaris_lab.Dispatch.Normalize.{NormalizedDispatch}
use polaris_lab.Dispatch.Tables.{
  DispatchRow, SyncStatus, sync_success, SyncRun, SyncState, DispatchTables, change_run,
}

abbrev pub torqueai_ingest_page_size : ℕ
torqueai_ingest_page_size = 100

-- The results of a run, as its record and its report have them.
pub record RunCounts : Type 0 where
  pub pages_fetched : ℕ
  pub provider_total_count : Option ℕ
  pub rows_validated : ℕ
  pub rows_inserted : ℕ
  pub rows_updated : ℕ
  pub rows_unchanged : ℕ

-- What became of a record of the batch.
pub data Effect : Type 0 where
  inserts updates keeps : Effect

abbrev pub count_effect : Effect → RunCounts → RunCounts
count_effect inserts c = record c { rows_inserted = suc c.rows_inserted }
count_effect updates c = record c { rows_updated = suc c.rows_updated }
count_effect keeps c = record c { rows_unchanged = suc c.rows_unchanged }

-- `_set_run_result`
abbrev pub set_run_result : SyncStatus → RunCounts → Option String → ℕ → SyncRun → SyncRun
set_run_result status c error_code completed_at r = record r {
  status = status;
  pages_fetched = c.pages_fetched;
  provider_total_count = c.provider_total_count;
  rows_validated = c.rows_validated;
  rows_inserted = c.rows_inserted;
  rows_updated = c.rows_updated;
  rows_unchanged = c.rows_unchanged;
  error_code = error_code;
  completed_at = some completed_at;
}

-- The arguments of an ingestion, the id that is drawn for a run that was not claimed, and what the clock
-- says at the start, when the rows are observed, at the end, and when a failure is recorded.
pub record Ingestion : Type 0 where
  pub organization_id : String
  pub organization_slug : String
  pub date_from : ℕ
  pub date_to : ℕ
  pub claimed_run_id : Option String
  pub drawn_run_id : String
  pub started_at : ℕ
  pub observed_at : ℕ
  pub completed_at : ℕ
  pub failed_at : ℕ

abbrev run_id_of : Ingestion → String
run_id_of call = elim call.claimed_run_id [ none ↦ call.drawn_run_id | some run_id ↦ run_id ]

-- The record of a run that was not claimed.
abbrev pub new_run : Ingestion → SyncStatus → RunCounts → Option String → ℕ → SyncRun
new_run call status c error_code completed_at = record {
  run_id = run_id_of call;
  organization_id = call.organization_id;
  requested_from = call.date_from;
  requested_to = call.date_to;
  page_size = torqueai_ingest_page_size;
  status = status;
  trigger_slot = none;
  pages_fetched = c.pages_fetched;
  provider_total_count = c.provider_total_count;
  rows_validated = c.rows_validated;
  rows_inserted = c.rows_inserted;
  rows_updated = c.rows_updated;
  rows_unchanged = c.rows_unchanged;
  error_code = error_code;
  started_at = call.started_at;
  completed_at = some completed_at;
}

-- The record of the run: a new row, or the result of the claimed one.
abbrev pub with_result :
    Ingestion → SyncStatus → RunCounts → Option String → ℕ → List SyncRun → List SyncRun
with_result call status c error_code completed_at runs = elim call.claimed_run_id [
  | none ↦ runs ++ new_run call status c error_code completed_at ∷ []
  | some run_id ↦
      change_run call.organization_id run_id (set_run_result status c error_code completed_at) runs
]

abbrev success_state : Ingestion → SyncState
success_state call = record {
  organization_id = call.organization_id;
  last_successful_window_start = call.date_from;
  last_successful_window_end = call.date_to;
  last_successful_run_id = run_id_of call;
  last_successful_completed_at = call.completed_at;
}

-- The state of the organization after a success.
unfoldable pub put_state : Ingestion → List SyncState → List SyncState
put_state call [] = success_state call ∷ []
put_state call (s ∷ states) =
    if str_eq s.organization_id call.organization_id
    then success_state call ∷ states
    else s ∷ put_state call states

module _ (organization_id : String) where
  abbrev pub is_row_of : String → String → DispatchRow → Bool
  is_row_of load order row =
      str_eq row.organization_id organization_id
      && str_eq row.values.provider_load_number load
      && str_eq row.values.provider_order_number order

  -- `existing.get(item.identity)`
  abbrev pub find_row : String → String → List DispatchRow → Option DispatchRow
  find_row load order rows = find_first (is_row_of load order) rows

  abbrev pub change_row :
      String → String → (DispatchRow → DispatchRow) → List DispatchRow → List DispatchRow
  change_row load order change rows = change_first (is_row_of load order) change rows

  abbrev pub row_of_item : NormalizedDispatch → List DispatchRow → Option DispatchRow
  row_of_item item rows = find_row item.provider_load_number item.provider_order_number rows

  module _ (column : Decimal → Decimal) (observed_at : ℕ) where
    -- `_persisted_values`, as the columns keep them
    abbrev pub persisted_values : NormalizedDispatch → NormalizedDispatch
    persisted_values item = record item {
      loaded_miles = elim item.loaded_miles [ none ↦ none | some d ↦ some (column d) ];
    }

    abbrev pub new_row : NormalizedDispatch → DispatchRow
    new_row item = record {
      organization_id = organization_id;
      values = persisted_values item;
      first_observed_at = observed_at;
      last_observed_at = observed_at;
      last_changed_at = observed_at;
    }

    abbrev pub is_unchanged : NormalizedDispatch → DispatchRow → Bool
    is_unchanged item row = str_eq row.values.source_fingerprint item.source_fingerprint

    abbrev pub observe : NormalizedDispatch → DispatchRow → DispatchRow
    observe item row =
        if is_unchanged item row
        then record row { last_observed_at = observed_at }
        else record row {
          last_observed_at = observed_at;
          values = persisted_values item;
          last_changed_at = observed_at;
        }

    abbrev pub effect_of : NormalizedDispatch → Option DispatchRow → Effect
    effect_of item none = inserts
    effect_of item (some row) = if is_unchanged item row then keeps else updates

    abbrev put_found : NormalizedDispatch → List DispatchRow → Option DispatchRow → List DispatchRow
    put_found item rows none = rows ++ new_row item ∷ []
    put_found item rows (some row) =
        change_row item.provider_load_number item.provider_order_number (observe item) rows

    -- One record of the batch.
    abbrev pub put_item : NormalizedDispatch → List DispatchRow → List DispatchRow
    put_item item rows = put_found item rows (row_of_item item rows)

    -- The loop over the batch.
    unfoldable pub put_items :
        List NormalizedDispatch → List DispatchRow → RunCounts → List DispatchRow × RunCounts
    put_items [] rows c = (rows, c)
    put_items (item ∷ items) rows c =
        put_items items (put_item item rows)
          (count_effect (effect_of item (row_of_item item rows)) c)

-- What the transaction of a success commits, and its counts.
abbrev pub stage_success :
    (Decimal → Decimal)
    → Ingestion
    → RunCounts
    → List NormalizedDispatch
    → DispatchTables
    → DispatchTables × RunCounts
stage_success column call c items tables =
    let (rows, counted) =
      put_items call.organization_id column call.observed_at items tables.dispatches c in
    (
      record {
        dispatches = rows;
        runs = with_result call sync_success counted none call.completed_at tables.runs;
        states = put_state call tables.states;
      },
      counted,
    )
