-- ===== src/Python/Float.antt =====
-- The quotients of integers that have no float: `a / b` raises OverflowError there.
use polaris_lab.Base.{ℕ, zero, suc, ◌-◌, ◌*◌, ◌^◌, ◌≤◌, false, leb, ◌≡◌, arith}

-- From here on a quotient has no float: halfway between the largest one and 2 ^ 1024.
unfoldable pub float_bound : ℕ
float_bound = 2 ^ 1024 - 2 ^ 970

pub float_bound_large : 10001 ≤ float_bound
unfolding float_bound
float_bound_large = omega arith

-- A quotient of so small a number is below the bound.
pub has_float :
    (bound size total : ℕ)
    → 10001 ≤ bound
    → 1 ≤ size
    → total ≤ 10000
    → leb (bound * size) total ≡ false
has_float bound zero total h k l = ground arith
has_float bound (suc m) total h k l = ground arith
