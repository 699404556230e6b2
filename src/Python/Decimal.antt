-- ===== src/Python/Decimal.antt =====
-- `decimal.Decimal`, as far as the code asks for it: finiteness and equality of values. How a text
-- becomes a decimal is left to the library, as the parameter `Reader`.
use polaris_lab.Base.{not, ℕ, ◌^◌, String, Bool, true, false, Option}
use polaris_lab.Base.Int.{ℤ, scale, eqb_ℤ}

-- `finite m k` is m / 10 ^ k; `infinite negative` an infinity.
pub data Decimal : Type 0 where
  finite : ℤ → ℕ → Decimal
  infinite : Bool → Decimal
  nan : Decimal

abbrev pub is_finite : Decimal → Bool
is_finite (finite m k) = true
is_finite (infinite _) = false
is_finite nan = false

-- `Decimal(a) == Decimal(b)`: the values are compared, not the spellings.
unfoldable pub eqb : Decimal → Decimal → Bool
eqb (finite m k) (finite n l) = eqb_ℤ (scale m (10 ^ l)) (scale n (10 ^ k))
eqb (infinite true) (infinite b) = b
eqb (infinite false) (infinite b) = not b
eqb _ _ = false

-- `Decimal(text)`; `none` stands for `InvalidOperation`.
abbrev pub Reader : Type 0
Reader = String → Option Decimal
