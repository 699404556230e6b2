-- ===== src/Lib.antt =====
-- The vehicle-utilization pipeline, the ingestion of TorqueAI's dispatches and the control plane of
-- their backfill, of the Polaris backend under chief-of-staff/backend/app.
--
-- The provider Motive is asked for one utilization rollup per vehicle and day. A read goes through
-- numbered pages, each parsed and checked; a write puts a whole batch of rollups into the table or
-- nothing; the production ingestion does both for the whole fleet and each of the last seven days,
-- with a history row per day; and the reconciliation runner repeats both for each recent day and
-- each batch of vehicles. Another provider, TorqueAI, is asked for the dispatches of at most seven
-- days: all pages are read and checked before one transaction inserts or updates a row for each, and
-- the run is recorded; a scheduler does this for the slot of an hour, which it claims first. The
-- backfill plans windows of its historical days, previews each window under a lease without writing
-- dispatches, and lets an operator approve what is clean.
--
-- * Utilization/UnitPolicy models motive/vehicle_utilization_unit_policy.py: which units are asked
--   for, and when a returned indicator is ready to be stored.
-- * Utilization/Rollup and Utilization/Parser model connectors/motive_vehicle_utilization.py:
--   `parse_vehicle_utilization_rollups` with `_parse_rollup`, `_provider_vehicle_id` and
--   `_decimal_metric`.
-- * Utilization/Http models `request_vehicle_utilization_page` of
--   connectors/motive_vehicle_utilization_pagination.py, with `_contract_json_response` of
--   connectors/motive_vehicle_utilization_contract.py and `_api_key` of connectors/motive.py.
-- * Utilization/Metadata and Utilization/Pages model the rest of the pagination module:
--   `parse_pagination_metadata`, and the loop of `read_vehicle_utilization_pages`.
-- * Utilization/Writer models `write_vehicle_utilization_transaction` of
--   motive/vehicle_utilization_writer.py: the rows and the session (Store), the validation steps
--   (Validate), the plan (Plan) and the staging (Stage); its rows are MotiveVehicleRecord and
--   MotiveVehicleUtilizationRecord of models/motive.py.
-- * Utilization/Reconciliation models motive/vehicle_utilization_recent_reconciliation.py: days,
--   batches, switch and budget (Schedule), the variables of a run (Tally), and the run itself.
-- * Utilization/Production models motive/vehicle_utilization_production_ingestion.py: the tables of
--   history and checkpoints (Ledger), a day's record (Persist), the fleet (Select), its one page
--   (Page), the locks (Lock), the loop over the days (Days), the reports (Reports), and
--   `run_vehicle_utilization_production_ingestion` itself.
-- * Backfill models connectors/torqueai_backfill_control.py with the tables of
--   models/torqueai_backfill.py: the errors and checks (Control), the rows (Tables), a preview's
--   report and its check (Reports, Evidence), `plan` (Plan), and `preview` with `_begin_preview`,
--   `finish_preview` and `approve` (Preview and Preview/Claim, Finish, Approve). Backfill/Moves and
--   Backfill/Steps have the life of a window and the operations as steps; Backfill/Disjoint,
--   Quarantine, Verdicts, Previews, Sound, Retry and Repeat (with Lookup and Again) have the proofs about days,
--   quarantined identities, verdicts, kept evidence, retried plans and repeated calls.
-- * Dispatch models connectors/torqueai.py, connectors/torqueai_ingestion.py and
--   connectors/torqueai_scheduler.py: the results of calls (Call), `fetch_dispatches` of the connector
--   with its checks and its parser (Request, Connector), `_normalize_pages` and what it calls
--   (Normalize), the rows of models/torqueai.py and the session (Tables), what a batch does to the
--   rows (Persist), `ingest_torqueai_dispatches` with `_load_claimed_run`, `_required_pages` and
--   `_record_failed_run` (Fetch, Ingest), and `run_scheduled_torqueai_dispatch_sync` with its settings
--   and its claim of a slot (Slots, Schedule), over an ingestion service (Service). The proofs about
--   the table are in Dispatch/Lookup, Rows and Twice, those about the counts, the requests and a
--   whole run in Tally, Effects, Fetches, Outcomes, Recorded, Atomic, Served and Succeeds, those about what the connector and
--   the normalization let through in Pages, Fields and Distinct, and those about triggers in Claims,
--   Guarded and Once.
-- * Outcome has the exceptions and the result of a call, Python the values, texts and decimals that
--   the code uses, Base the shared names and lemmas; the queries and updates of the modelled tables
--   by a test are those of Base/Find.
--
-- Parameters. The HTTP client is a function from the number of requests sent before and the request
-- to an answer, a timeout, a network failure or any other exception. The decimal library is a reader
-- from texts to decimals. The database is how a column keeps a decimal, which primary key a new row
-- gets, and which statements fail; for the production ingestion also the accesses that it refuses
-- and what its row lock answers. For the backfill it is the ids that are drawn, the digest of an
-- evidence, the preview of an interval (connectors/torqueai_history_preview.py) and the table of
-- organizations. For the dispatches it is the HTTP client, `urlsplit`, the reader of a date, how a
-- decimal is spelled, the digest, what the column of the miles keeps, and which transactions the
-- database refuses; a whole run takes the connector as a parameter, and its proofs suppose that a
-- call of it sends at most one request. The scheduler takes the ingestion, with what it relies on, as
-- a record that the model's ingestion fills. The clock and the environment variables are arguments.
--
-- State. A session has the committed rows and the working rows on top of them; rollback and commit
-- are on these two. The production ingestion has besides the tables of history and checkpoints and the
-- organizations whose process lock is held. The ingestion of dispatches has a session of its own with
-- dispatches, runs and states. The backfill has one ledger of manifests, windows, attempts
-- and identities; a call returns the new ledger, or an error, after which the ledger is the old one.
-- The runner's local variables are a record that its steps pass on. An exception is a value,
-- and a handler is a match on it.
--
-- Bounds. The loop over the pages runs on fuel: MAX_VEHICLE_UTILIZATION_PAGES = 100 rounds, which is
-- enough because the page guard refuses a larger total before the loop goes on. The batches run on
-- as many rounds as there are vehicles, which is enough because a batch takes at least one. The loop
-- over the pages of dispatches recurs on the number of pages that are left, which is ten at most.
-- Numbers in Python have no bound; the float quotients of `_required_pages` and of the loop over the
-- pages overflow, and the model raises there (Python/Float). Below that, the model divides exactly:
-- against the two bounds on pages the ceilings agree, since the sizes are at most 100.
--
-- Left out: logging, the time stamps of rows, the sanitized diagnostics of an HTTP 400 answer,
-- arguments of types that the signatures exclude, the association functions of the parser
-- module, the metrics and run ids of a production snapshot, texts with a lone surrogate, which
-- have no digest, the enrichment of dispatches that the scheduler's ingestion adds, primary keys
-- and library-set stamps of the rows, the images, the update reviews and the listings of the
-- backfill, and all parts of the backend besides these three.
pub mod Base
pub mod Outcome
pub mod Python
pub mod Utilization
pub mod Backfill
pub mod Dispatch
