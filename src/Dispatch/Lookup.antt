-- ===== src/Dispatch/Lookup.antt =====
-- Whose row a row of the table of dispatches is
-- (chief-of-staff/backend/app/connectors/torqueai_ingestion.py).
use polaris_lab.Base.{String, true, eq_iff, ◌≡◌, arith}
use polaris_lab.Dispatch.Tables.{DispatchRow}
use polaris_lab.Dispatch.Persist.{is_row_of}

module _ (organization_id : String) where
  pub is_row_of-eq :
      (l k : String) (row : DispatchRow)
      → is_row_of organization_id l k row ≡ true
      → (row.organization_id ≡ organization_id)
        × (row.values.provider_load_number ≡ l)
        × (row.values.provider_order_number ≡ k)
  is_row_of-eq l k row h = ground (
    arith,
    eq_iff row.organization_id organization_id,
    eq_iff row.values.provider_load_number l,
    eq_iff row.values.provider_order_number k,
  )
