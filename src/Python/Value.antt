-- ===== src/Python/Value.antt =====
-- A decoded JSON document, as `response.json()` hands it over (any value that the parsers of
-- chief-of-staff/backend/app/connectors/motive_vehicle_utilization.py and of the pagination module
-- inspect). A float is kept as the text that `str` gives for it, the only thing that is asked of it.
use polaris_lab.Base.{String, Bool, Option, none, some, str_eq, if◌then◌else◌}
use polaris_lab.Base.Int.{ℤ}

mutual
  pub data Value : Type 0 where
    null : Value
    bool : Bool → Value
    int : ℤ → Value
    float : String → Value
    text : String → Value
    list : Items → Value
    object : Fields → Value

  pub data Items : Type 0 where
    nil : Items
    cons : Value → Items → Items

  pub data Fields : Type 0 where
    end : Fields
    field : String → Value → Fields → Fields

-- `d.get(key)` and `key in d`: a dict has each key once.
unfoldable pub lookup : String → Fields → Option Value
lookup key end = none
lookup key (field k v fields) = if str_eq k key then some v else lookup key fields

-- `d.get(key)`, with Python's `None` for a missing key.
abbrev pub or_null : Option Value → Value
or_null none = null
or_null (some v) = v
