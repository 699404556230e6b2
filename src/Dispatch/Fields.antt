-- ===== src/Dispatch/Fields.antt =====
-- What the readers of one field of a dispatch let through,
-- chief-of-staff/backend/app/connectors/torqueai_ingestion.py.
use polaris_lab.Base.{
  ltb-false, inl, inr, Bool-cases, ℕ, ◌≤◌, String, Bool, false, ◌||◌, Option, none, some, ltb,
  str_eq_sym, ◌≡◌, refl, arith,
}
use polaris_lab.Python.Value.{Value, null, bool, int, float, text, list, object, Fields}
use polaris_lab.Python.Decimal.{Decimal}
use polaris_lab.Python.Text.{strip, is_empty, text_length}
use polaris_lab.Dispatch.Call.{Returns, failed, gave, raise_if-Returns}
use polaris_lab.Dispatch.Connector.{get}
use polaris_lab.Dispatch.Normalize.{
  NormalizedDispatch, malformed, optional_text, bad_decimal, order_number_of, same_identity,
  checked_decimal,
}

-- A text that is there is within the bound.
abbrev pub IsWithin : ℕ → Option String → Type 0
IsWithin maximum none = Unit
IsWithin maximum (some t) = text_length t ≤ maximum

abbrev pub IsMiles : Option Decimal → Type 0
IsMiles none = Unit
IsMiles (some d) = bad_decimal d ≡ false

optional_text-IsWithin :
    (v : Value) (maximum : ℕ) → Returns (IsWithin maximum) (optional_text v maximum)
unfolding optional_text
optional_text-IsWithin null maximum = gave tt
optional_text-IsWithin (text t) maximum =
    raise_if-Returns (IsWithin maximum) (ltb maximum (text_length (strip t))) malformed _
      λ small. gave (ltb-false maximum (text_length (strip t)) small)
optional_text-IsWithin (bool b) maximum = failed
optional_text-IsWithin (int n) maximum = failed
optional_text-IsWithin (float t) maximum = failed
optional_text-IsWithin (list t) maximum = failed
optional_text-IsWithin (object t) maximum = failed

pub checked_decimal-IsMiles : (o : Option Decimal) → Returns IsMiles (checked_decimal o)
checked_decimal-IsMiles none = failed
checked_decimal-IsMiles (some d) = elim (Bool-cases (bad_decimal d)) [
  | inl e ↦ rw e failed
  | inr e ↦ rw e (gave e)
]

abbrev IsOrder : String → Type 0
IsOrder order = (is_empty order ≡ false) × (text_length order ≤ 255)

order_fits : (empty : Bool) (n : ℕ) → (empty || ltb 255 n) ≡ false → (empty ≡ false) × (n ≤ 255)
order_fits empty n h = ground arith

pub order_number_of-IsOrder : (v : Value) → Returns IsOrder (order_number_of v)
order_number_of-IsOrder (text t) =
    elim (Bool-cases (is_empty (strip t) || ltb 255 (text_length (strip t)))) [
      | inl e ↦ rw e failed
      | inr e ↦ rw e (gave (order_fits (is_empty (strip t)) (text_length (strip t)) e))
    ]
order_number_of-IsOrder null = failed
order_number_of-IsOrder (int n) = failed
order_number_of-IsOrder (float t) = failed
order_number_of-IsOrder (bool b) = failed
order_number_of-IsOrder (list t) = failed
order_number_of-IsOrder (object t) = failed

pub text_fits :
    (key : String) (raw : Fields) (maximum : ℕ)
    → Returns (IsWithin maximum) (optional_text (get key raw) maximum)
text_fits key raw maximum = optional_text-IsWithin (get key raw) maximum

pub same_identity_sym : (d e : NormalizedDispatch) → same_identity d e ≡ same_identity e d
same_identity_sym d e =
    rw
      (
        str_eq_sym d.provider_load_number e.provider_load_number,
        str_eq_sym d.provider_order_number e.provider_order_number,
      )
      refl

pub both_unseen : (a b : Bool) → a ≡ false → b ≡ false → (a || b) ≡ false
both_unseen a b h k = ground arith
