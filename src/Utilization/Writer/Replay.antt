-- ===== src/Utilization/Writer/Replay.antt =====
-- A write of a batch that the table already agrees with, by
-- chief-of-staff/backend/app/motive/vehicle_utilization_writer.py.
use polaris_lab.Base.{
  ℕ, suc, ◌+◌, String, true, false, none, some, List, [], ◌∷◌, length, All, ◌≡◌, refl, ◌∙◌, ap,
  arith,
}
use polaris_lab.Outcome.{ok}
use polaris_lab.Utilization.Rollup.{Metrics, Rollup}
use polaris_lab.Utilization.Writer.{write_result, query, raise_fault, prepare, save, write}
use polaris_lab.Utilization.Writer.Store.{
  Row, Field, get, Session, Database, Statement, vehicle_query, row_query, flush, commit,
  commit_session,
}
use polaris_lab.Utilization.Writer.Validate.{Batch, validate_batch}
use polaris_lab.Utilization.Writer.Plan.{
  WritePlan, empty_plan, plan_writes, decide_row, existing_row, existing_row_context_compatible,
  decimal_differs, candidate_fields, field_changes, compute_mutable_field_changes, key_of,
  resolve_tenant_vehicles,
}
use polaris_lab.Utilization.Writer.Stage.{add_rows, reconcile_rows}

-- The same values in all five metrics.
abbrev pub AreSame : Metrics → Metrics → Type 0
AreSame a b = (f : Field) → decimal_differs (get f a) (get f b) ≡ false

field_changes-none :
    (fields : List Field) (a b : Metrics) → AreSame a b → field_changes fields a b ≡ ok []
unfolding field_changes
field_changes-none [] a b same = refl
field_changes-none (f ∷ fields) a b same = rw (same f) (field_changes-none fields a b same)

-- The table has a row at the rollup's key, of the same context and with the same metrics.
pub record IsHeld (organization_id slug : String) (rows : List Row) (r : Rollup) (id : ℕ)
    : Type 0 where
  pub row : Row
  pub found : existing_row (key_of organization_id slug rows r id) rows ≡ some row
  pub compatible : existing_row_context_compatible row.value r ≡ true
  pub metrics : AreSame row.value.metrics r.metrics

module _ (organization_id slug : String) (rows : List Row) where
  abbrev pub AreHeld : List (Rollup × ℕ) → Type 0
  AreHeld = All (λ p. IsHeld organization_id slug rows p.0 p.1)

  abbrev unchanged : WritePlan → ℕ → WritePlan
  unchanged plan n = record plan { unchanged_count = n }

  decide_row-held :
      (plan : WritePlan) (r : Rollup) (id : ℕ)
      → IsHeld organization_id slug rows r id
      → decide_row organization_id slug rows plan r id
          (existing_row (key_of organization_id slug rows r id) rows)
        ≡ ok (unchanged plan (plan.unchanged_count + 1))
  unfolding compute_mutable_field_changes
  decide_row-held plan r id h =
      rw
        (
          h.found,
          h.compatible,
          field_changes-none candidate_fields h.row.value.metrics r.metrics h.metrics,
        )
        refl

  plan_writes-held :
      (resolved : List (Rollup × ℕ)) (plan : WritePlan)
      → AreHeld resolved
      → plan_writes organization_id slug rows plan resolved
        ≡ ok (unchanged plan (length resolved + plan.unchanged_count))
  unfolding plan_writes
  plan_writes-held [] plan h =
      let zero_more : plan.unchanged_count ≡ 0 + plan.unchanged_count = omega arith in
      ap (λ n. ok (unchanged plan n)) zero_more
  plan_writes-held ((r, id) ∷ rest) plan h =
      let one_more : length rest + (plan.unchanged_count + 1)
          ≡ suc (length rest) + plan.unchanged_count =
        omega arith in
      rw (decide_row-held plan r id h.0) (
        plan_writes-held rest (unchanged plan (plan.unchanged_count + 1)) h.1
        ∙ ap (λ n. ok (unchanged plan n)) one_more)

-- No statement on these sessions fails.
abbrev pub IsQuiet : Database → Session → Type 0
IsQuiet db s = (statement : Statement) → db.fault statement s ≡ none

query-quiet :
    (db : Database) (statement : Statement) (s : Session) (rs : List Rollup)
    → IsQuiet db s
    → query db statement s rs ≡ ok tt
query-quiet db statement s [] quiet = refl
query-quiet db statement s (r ∷ rs) quiet = ap raise_fault (quiet statement)

-- A valid batch whose vehicles are known, and for each of whose rollups the table already has a row
-- of the same context with the same metrics, is written without a change when no statement fails: it
-- counts every rollup as unchanged and commits the rows as they were.
pub write-held :
    (db : Database) (b : Batch) (s : Session) (selected : List String)
    (resolved : List (Rollup × ℕ))
    → IsQuiet db s
    → validate_batch b ≡ ok selected
    → resolve_tenant_vehicles b.organization_id s.vehicles b.rollups ≡ ok resolved
    → AreHeld b.organization_id b.organization_slug s.working resolved
    → write db b s ≡ (
      ok (write_result b selected (record empty_plan { unchanged_count = length resolved })),
      commit_session s,
    )
unfolding write prepare save add_rows reconcile_rows
write-held db b s selected resolved quiet valid known held =
    let no_more : length resolved + 0 ≡ length resolved = omega arith in
    rw
      (
        valid,
        query-quiet db vehicle_query s b.rollups quiet,
        known,
        query-quiet db row_query s b.rollups quiet,
        plan_writes-held b.organization_id b.organization_slug s.working resolved empty_plan held,
        no_more,
        quiet flush,
        quiet commit,
      )
      refl
