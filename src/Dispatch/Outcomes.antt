-- ===== src/Dispatch/Outcomes.antt =====
-- What a run of `ingest_torqueai_dispatches`, chief-of-staff/backend/app/connectors/torqueai_ingestion.py,
-- leaves in the database and asks of the provider.
use polaris_lab.Dispatch.Effects.{IsTold, put_items-IsTold}
use polaris_lab.Base.{
  ℕ, ◌+◌, ◌≤◌, String, Option, none, some, List, length, ◌≡◌, refl, ◌∙◌, ◌⊎◌, inl, inr, Bool-cases,
  arith,
}
use polaris_lab.Python.Decimal.{Decimal}
use polaris_lab.Dispatch.Call.{
  Fault, connector_fault, ingestion_fault, other_fault, Call, raised, returned,
}
use polaris_lab.Dispatch.Connector.{DispatchPage}
use polaris_lab.Dispatch.Normalize.{NormalizedDispatch}
use polaris_lab.Dispatch.Tables.{
  sync_success, sync_failed, SyncRun, DispatchTables, DispatchSession, roll_back,
}
use polaris_lab.Dispatch.Persist.{RunCounts, Ingestion, with_result, put_state, stage_success}
use polaris_lab.Dispatch.Fetch.{
  nothing_fetched, FetchProgress, counts_of, Connector, fetch_all, validate_range,
}
use polaris_lab.Dispatch.Ingest.{
  Refusals, load_claimed_run, record_failed_run, record_write, handle_fetch, write_batch,
  after_items, ingest_pages, after_load, ingest_claimed, ingest_checked, ingest_dispatches,
}
use polaris_lab.Dispatch.Rows.{view, replay_items, view-put_items}
use polaris_lab.Dispatch.Tally.{put_items-IsCounted}
use polaris_lab.Dispatch.Fetches.{IsWhole, IsWholeCall, IsSingle, fetch_all-IsFetched}

-- The runs are as they were, or one is added or marked as failed.
abbrev HasFailure : Ingestion → List SyncRun → List SyncRun → Type 0
HasFailure call runs runs' =
    (runs' ≡ runs)
    ⊎ ((p : FetchProgress) × (code : String) × (runs'
          ≡ with_result call sync_failed (counts_of p) (some code) call.failed_at runs))

-- No dispatch and no state is written.
abbrev IsAbandoned : Ingestion → DispatchTables → DispatchTables → Type 0
IsAbandoned call tables tables' =
    (tables'.dispatches ≡ tables.dispatches)
    × (tables'.states ≡ tables.states)
    × HasFailure call tables.runs tables'.runs

module _ (column : Decimal → Decimal) where
  -- A batch is in the table, and the counts `c` say what became of it.
  pub record IsReplay (call : Ingestion) (tables tables' : DispatchTables) (c : RunCounts)
      : Type 0 where
    pub items : List NormalizedDispatch
    pub read :
        view tables'.dispatches
        ≡ replay_items call.organization_id column call.observed_at items (view tables.dispatches)
    pub validated : c.rows_validated ≡ length items
    pub total : c.provider_total_count ≡ some (length items)
    pub bounded : length items ≤ 1000
    pub accounted : c.rows_inserted + c.rows_updated + c.rows_unchanged ≡ length items
    pub told :
        IsTold call.organization_id column call.observed_at items
          (view tables.dispatches)
          (counts_of nothing_fetched)
          c
    pub grown : length tables'.dispatches ≡ length tables.dispatches + c.rows_inserted

  -- The success is recorded in the run and in the state, and all is committed.
  abbrev pub IsRecorded : Ingestion → DispatchSession → DispatchSession → RunCounts → Type 0
  IsRecorded call s s' c =
      (s'.committed.runs ≡ with_result call sync_success c none call.completed_at s.working.runs)
      × (s'.committed.states ≡ put_state call s.working.states)
      × (s'.working ≡ s'.committed)

  abbrev pub IsWritten : Ingestion → DispatchSession → Call RunCounts × DispatchSession → Type 0
  IsWritten call s (raised e, s') = IsAbandoned call s.committed s'.committed
  IsWritten call s (returned c, s') = IsRecorded call s s' c

  abbrev pub IsReplayed : Ingestion → DispatchSession → Call RunCounts × DispatchSession → Type 0
  IsReplayed call s (raised e, s') = Unit
  IsReplayed call s (returned c, s') = IsReplay call s.working s'.committed c

  abbrev IsDone : Ingestion → DispatchSession → Call RunCounts × DispatchSession → Type 0
  IsDone call s r = IsWritten call s r × IsReplayed call s r

  module _ (db : Refusals) where
    record_failed_run-IsAbandoned :
        (call : Ingestion) (p : FetchProgress) (code : String) (s : DispatchSession)
        → IsAbandoned call s.committed (record_failed_run db column call p code s).committed
    unfolding record_failed_run
    record_failed_run-IsAbandoned call p code s =
        elim (Bool-cases (
          db.refuses_record (record s.committed {
            runs =
                with_result call sync_failed (counts_of p) (some code) call.failed_at
                  s.committed.runs;
          }))) [
            | inl e ↦ rw e (refl, refl, inl refl)
            | inr e ↦ rw e (refl, refl, inr (p, code, refl))
          ]

    record_write-IsAbandoned :
        (call : Ingestion) (p : FetchProgress) (s : DispatchSession) (claimed : Option String)
        → IsAbandoned call s.committed (record_write db column call p s claimed).committed
    record_write-IsAbandoned call p s none = (refl, refl, inl refl)
    record_write-IsAbandoned call p s (some run_id) =
        record_failed_run-IsAbandoned call p "database_write_failed" (roll_back s)

    handle_fetch-IsDone :
        (call : Ingestion) (p : FetchProgress) (e : Fault) (s : DispatchSession)
        → IsDone call s (handle_fetch db column call p e s)
    handle_fetch-IsDone call p (connector_fault code status) s =
        (record_failed_run-IsAbandoned call p code s, tt)
    handle_fetch-IsDone call p (ingestion_fault code status) s =
        (record_failed_run-IsAbandoned call p code s, tt)
    handle_fetch-IsDone call p other_fault s = ((refl, refl, inl refl), tt)

    write_batch-IsDone :
        (call : Ingestion) (p : FetchProgress) (items : List NormalizedDispatch)
        (s : DispatchSession)
        → IsWhole p items
        → IsDone call s (write_batch db column call p items s)
    write_batch-IsDone call p items s whole =
        let counted =
          put_items-IsCounted call.organization_id column call.observed_at items
            s.working.dispatches (counts_of p) in
        let told =
          put_items-IsTold call.organization_id column call.observed_at items s.working.dispatches
            (counts_of p) in
        elim (Bool-cases
          (db.refuses_write (stage_success column call (counts_of p) items s.working).0)) [
            | inl e ↦ rw e (record_write-IsAbandoned call p s call.claimed_run_id, tt)
            | inr e ↦ rw e (
              (refl, refl, refl),
              record {
                items = items;
                read =
                    view-put_items call.organization_id column call.observed_at items
                      s.working.dispatches (counts_of p);
                validated = counted.validated ∙ whole.validated;
                total = counted.total ∙ whole.total;
                bounded = whole.bounded;
                accounted = omega (arith, counted.all);
                told = record {
                  inserted = omega (arith, told.inserted);
                  updated = omega (arith, told.updated);
                  unchanged = omega (arith, told.unchanged);
                };
                grown = omega (arith, counted.grown);
              },
            )
          ]

    after_items-IsDone :
        (call : Ingestion) (p : FetchProgress) (s : DispatchSession)
        (items : Call (List NormalizedDispatch))
        → IsWholeCall p items
        → IsDone call s (after_items db column call p s items)
    after_items-IsDone call p s (raised e) whole = handle_fetch-IsDone call p e s
    after_items-IsDone call p s (returned items) whole = write_batch-IsDone call p items s whole

    module _ (normalize : List DispatchPage → Call (List NormalizedDispatch)) (fetch : Connector)
        (single : IsSingle fetch) where
      -- What is left in the database, and how many requests were sent.
      abbrev IsEnd :
          Ingestion → DispatchSession → ℕ → (Call RunCounts × DispatchSession) × ℕ → Type 0
      IsEnd call s sent (r, sent') = IsDone call s r × (sent' ≤ sent + 10)

      ingest_pages-IsEnd :
          (call : Ingestion) (s : DispatchSession) (sent : ℕ)
          → IsEnd call s sent (ingest_pages db column normalize fetch call s sent)
      ingest_pages-IsEnd call s sent =
          let f = fetch_all normalize fetch call.date_from call.date_to sent in
          let fetched =
            fetch_all-IsFetched normalize fetch single call.date_from call.date_to sent in
          (after_items-IsDone call f.progress s f.items fetched.whole, fetched.sent_bound)

      after_load-IsEnd :
          (call : Ingestion) (s : DispatchSession) (sent : ℕ) (loaded : Call (Unit {0}))
          → IsEnd call s sent (after_load db column normalize fetch call s sent loaded)
      after_load-IsEnd call s sent (raised e) = (((refl, refl, inl refl), tt), omega arith)
      after_load-IsEnd call s sent (returned _) = ingest_pages-IsEnd call s sent

      ingest_claimed-IsEnd :
          (call : Ingestion) (s : DispatchSession) (sent : ℕ) (claimed : Option String)
          → IsEnd call s sent (ingest_claimed db column normalize fetch call s sent claimed)
      ingest_claimed-IsEnd call s sent none = ingest_pages-IsEnd call s sent
      ingest_claimed-IsEnd call s sent (some run_id) =
          after_load-IsEnd call s sent (load_claimed_run db column call run_id s.working)

      ingest_checked-IsEnd :
          (call : Ingestion) (s : DispatchSession) (sent : ℕ) (checked : Call (Unit {0}))
          → IsEnd call s sent (ingest_checked db column normalize fetch call s sent checked)
      ingest_checked-IsEnd call s sent (raised e) = (((refl, refl, inl refl), tt), omega arith)
      ingest_checked-IsEnd call s sent (returned _) =
          ingest_claimed-IsEnd call s sent call.claimed_run_id

      ingest-IsEnd :
          (call : Ingestion) (s : DispatchSession) (sent : ℕ)
          → IsEnd call s sent (ingest_dispatches db column normalize fetch call s sent)
      unfolding ingest_dispatches
      ingest-IsEnd call s sent =
          ingest_checked-IsEnd call s sent (validate_range call.date_from call.date_to)

      -- What an ingestion writes, by the functions that write it.
      pub ingest-IsWritten :
          (call : Ingestion) (s : DispatchSession) (sent : ℕ)
          → IsWritten call s (ingest_dispatches db column normalize fetch call s sent).0
      ingest-IsWritten call s sent = (ingest-IsEnd call s sent).0.0

      -- An ingestion that returns has put a batch of at most 1000 records, as many as the provider
      -- counts, into the table: read as a function of organization, load and order, the committed table
      -- is the one before with the records put in one by one. Its count of inserted rows is
      -- the number of records that find no row when their turn comes, that of updated rows the number of
      -- those that find a row with another fingerprint, and that of unchanged rows the number of those
      -- that find a row with their own; together they are all records, and the table has grown by the
      -- inserted ones. This is for a connector that sends at most one request for a
      -- call.
      pub ingest-IsReplayed :
          (call : Ingestion) (s : DispatchSession) (sent : ℕ)
          → IsReplayed call s (ingest_dispatches db column normalize fetch call s sent).0
      ingest-IsReplayed call s sent = (ingest-IsEnd call s sent).0.1

      -- An ingestion, however it ends, sends at most ten requests, when its connector sends at most one
      -- for a call.
      pub ingest_bound :
          (call : Ingestion) (s : DispatchSession) (sent : ℕ)
          → (ingest_dispatches db column normalize fetch call s sent).1 ≤ sent + 10
      ingest_bound call s sent = (ingest-IsEnd call s sent).1
