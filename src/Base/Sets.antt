-- ===== src/Base/Sets.antt =====
-- Texts without repetition: what an append says, and that they are no more than a list holding them.
use Prim.Native.Nat.{suc, ◌≤◌}
use Prim.Native.String.{String}
use mathlib.Core.Path.{◌≡◌, refl}
use mathlib.Core.Bool.{true, false}
use mathlib.Core.List.{List, [], ◌∷◌, ◌++◌}
use native.Mathlib.Omega.{arith}
use text.Mathlib.Text.{◌==◌}
use text.Mathlib.TextEquality.{eq_iff}
use polaris_lab.Base.Tests.{if◌then◌else◌}
use polaris_lab.Base.Lists.{length, All, contains, Nodup, contains-append, str_eq_sym}

without : String → List String → List String
without x [] = []
without x (y ∷ ys) = if x == y then ys else y ∷ without x ys

length-without :
    (x : String) (ys : List String) → contains x ys ≡ true → length ys ≡ suc (length (without x ys))
unfolding without
length-without x [] h = cc
length-without x (y ∷ ys) h = ground (arith, length-without x ys)

contains-without :
    (x z : String) (ys : List String)
    → (z == x) ≡ false
    → contains z ys ≡ true
    → contains z (without x ys) ≡ true
unfolding without
contains-without x z [] ne h = cc
contains-without x z (y ∷ ys) ne h =
    ground (arith, contains-without x z ys, eq_iff z y, eq_iff x y, eq_iff z x)

All-without :
    (x : String) (xs ys : List String)
    → contains x xs ≡ false
    → All (λ z. contains z ys ≡ true) xs
    → All (λ z. contains z (without x ys) ≡ true) xs
All-without x [] ys n h = tt
All-without x (z ∷ zs) ys n h =
    ground (arith, contains-without x z ys, All-without x zs ys, str_eq_sym x z)

-- Distinct texts that all stand in `ys` are at most as many as `ys` has.
pub Nodup-length-le :
    (xs ys : List String) → Nodup xs → All (λ z. contains z ys ≡ true) xs → length xs ≤ length ys
Nodup-length-le [] ys n h = omega arith
Nodup-length-le (x ∷ xs) ys n h = omega (
  arith,
  length-without x ys h.0,
  Nodup-length-le xs (without x ys) n.1 (All-without x xs ys n.0 h.1),
)

-- In a list without repetition the texts behind one are not before it.
pub Nodup-middle :
    (xs : List String) (x : String) (ys : List String)
    → Nodup (xs ++ x ∷ ys)
    → contains x xs ≡ false
Nodup-middle [] x ys n = refl
Nodup-middle (z ∷ zs) x ys n =
    ground (arith, Nodup-middle zs x ys n.1, contains-append z zs (x ∷ ys), str_eq_sym x z)

pub Nodup-append_left : (xs ys : List String) → Nodup (xs ++ ys) → Nodup xs
Nodup-append_left [] ys n = tt
Nodup-append_left (x ∷ xs) ys n =
    ground (arith, Nodup-append_left xs ys n.1, contains-append x xs ys)
