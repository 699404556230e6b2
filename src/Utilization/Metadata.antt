-- ===== src/Utilization/Metadata.antt =====
-- The metadata of a page of rollups,
-- chief-of-staff/backend/app/connectors/motive_vehicle_utilization_pagination.py: `parse_pagination_metadata`.
use polaris_lab.Base.{
  ℕ, String, Bool, false, ◌||◌, not, Option, none, some, ltb, ◌==◌, if◌then◌else◌,
}
use polaris_lab.Base.Int.{pos, negsuc}
use polaris_lab.Outcome.{Exc, pagination_error, Result, ok, err, ◌>>=◌, ◌>>◌, raise_if}
use Prim.Native.String
use polaris_lab.Python.Value.{Value, null, int, object, Fields, lookup, or_null}
use polaris_lab.Utilization.Http.{max_provider_page_size}

abbrev pub first_page : ℕ
first_page = 1

abbrev pub max_vehicle_utilization_pages : ℕ
max_vehicle_utilization_pages = 100

-- VehicleUtilizationPaginationMetadata
pub record PaginationMetadata : Type 0 where
  pub per_page : ℕ
  pub page_no : ℕ
  pub total : ℕ

abbrev pub coded : String → String → String → Exc
coded before key after = pagination_error (String.◌++◌ before (String.◌++◌ key after))

abbrev pub exceeds : Option ℕ → ℕ → Bool
exceeds none n = false
exceeds (some maximum) n = ltb maximum n

-- The type and range checks of `_pagination_int`, on the value of a key that is there.
unfoldable pub int_in_range : String → ℕ → Option ℕ → Option Value → Result ℕ
int_in_range key minimum maximum none = err (coded "missing_" key "")
int_in_range key minimum maximum (some (int (pos n))) =
    if ltb n minimum || exceeds maximum n then err (coded "invalid_" key "_value") else ok n
int_in_range key minimum maximum (some (int (negsuc n))) = err (coded "invalid_" key "_value")
int_in_range key minimum maximum (some _) = err (coded "invalid_" key "_type")

-- `_pagination_int`
unfoldable pub pagination_int : Fields → String → ℕ → Option ℕ → Result ℕ
unfolding int_in_range
pagination_int pagination key minimum maximum =
    int_in_range key minimum maximum (lookup key pagination)

unfoldable pub checked_metadata : Fields → ℕ → ℕ → Result PaginationMetadata
checked_metadata pagination expected_page_no expected_per_page = do
  per_page ← pagination_int pagination "per_page" 1 (some max_provider_page_size)
  page_no ← pagination_int pagination "page_no" 1 none
  total ← pagination_int pagination "total" 0 none
  raise_if (not (page_no == expected_page_no)) (pagination_error "pagination_page_no_mismatch")
  raise_if (not (per_page == expected_per_page)) (pagination_error "pagination_per_page_mismatch")
  ok (record { per_page = per_page; page_no = page_no; total = total })

unfoldable pub metadata_of : Value → ℕ → ℕ → Result PaginationMetadata
metadata_of null page_no per_page = err (pagination_error "missing_pagination")
metadata_of (object pagination) page_no per_page = checked_metadata pagination page_no per_page
metadata_of _ page_no per_page = err (pagination_error "invalid_pagination")

unfoldable pub parse_pagination_metadata : Value → ℕ → ℕ → Result PaginationMetadata
unfolding checked_metadata metadata_of
parse_pagination_metadata (object payload) page_no per_page =
    metadata_of (or_null (lookup "pagination" payload)) page_no per_page
parse_pagination_metadata _ page_no per_page = err (pagination_error "invalid_envelope")
