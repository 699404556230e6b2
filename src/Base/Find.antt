-- ===== src/Base/Find.antt =====
-- A query for the first row that a test accepts, an update of that row, and a test of whether there is one.
use Prim.Native.Nat.{suc}
use mathlib.Core.Path.{◌≡◌, refl, ap}
use mathlib.Core.Logic.{◌⊎◌, inl, inr}
use mathlib.Core.Bool.{Bool, true, false, ◌||◌}
use mathlib.Core.Option.{Option, none, some}
use mathlib.Core.List.{List, [], ◌∷◌, ◌++◌}
use native.Mathlib.Omega.{arith}
use polaris_lab.Base.Tests.{if◌then◌else◌, Bool-cases}
use polaris_lab.Base.Lists.{length, All}

module _ {ℓ} {A : Type ℓ} (test : A → Bool) where
  unfoldable pub find_first : List A → Option A
  find_first [] = none
  find_first (x ∷ xs) = if test x then some x else find_first xs

  unfoldable pub change_first : (A → A) → List A → List A
  change_first change [] = []
  change_first change (x ∷ xs) = if test x then change x ∷ xs else x ∷ change_first change xs

  unfoldable pub any_of : List A → Bool
  any_of [] = false
  any_of (x ∷ xs) = test x || any_of xs

  pub find_first-append :
      (xs : List A) (y : A)
      → find_first (xs ++ y ∷ [])
        ≡ elim (find_first xs) [ some x ↦ some x | none ↦ if test y then some y else none ]
  unfolding find_first
  find_first-append [] y = refl
  find_first-append (x ∷ xs) y = elim (Bool-cases (test x)) [
    | inl e ↦ rw e refl
    | inr e ↦ rw e (find_first-append xs y)
  ]

  pub any_of-append : (xs : List A) (y : A) → any_of (xs ++ y ∷ []) ≡ (any_of xs || test y)
  unfolding any_of
  any_of-append [] y = ground arith
  any_of-append (x ∷ xs) y = ground (arith, any_of-append xs y)

  -- The row that is found is the first one, or it is found among the later ones.
  pub find_first-cases :
      (x y : A) (xs : List A)
      → find_first (x ∷ xs) ≡ some y
      → ((test x ≡ true) × (x ≡ y)) ⊎ ((test x ≡ false) × (find_first xs ≡ some y))
  unfolding find_first
  find_first-cases x y xs h = elim (Bool-cases (test x)) [
    | inl e ↦ let found : some x ≡ some y = rw e at h in inl (e, cc)
    | inr e ↦ inr (e, rw e at h)
  ]

  pub find_first-test : (xs : List A) (y : A) → find_first xs ≡ some y → test y ≡ true
  unfolding find_first
  find_first-test [] y h = cc
  find_first-test (x ∷ xs) y h = elim (find_first-cases x y xs h) [
    | inl (e, same) ↦ rw (← same) e
    | inr (e, later) ↦ find_first-test xs y later
  ]

  pub find_first-All {κ} :
      (P : A → Type κ) (xs : List A) (y : A) → find_first xs ≡ some y → All P xs → P y
  unfolding find_first
  find_first-All P [] y h all = cc
  find_first-All P (x ∷ xs) y h all = elim (find_first-cases x y xs h) [
    | inl (e, same) ↦ rw (← same) all.0
    | inr (e, later) ↦ find_first-All P xs y later all.1
  ]

  module _ (change : A → A) where
    pub find_first-change :
        ((x : A) → test x ≡ true → test (change x) ≡ true)
        → (xs : List A) (y : A) → find_first xs ≡ some y
        → find_first (change_first change xs) ≡ some (change y)
    unfolding find_first change_first
    find_first-change kept [] y h = cc
    find_first-change kept (x ∷ xs) y h = elim (find_first-cases x y xs h) [
      | inl (e, same) ↦ rw (e, kept x e) (ap (λ z. some (change z)) same)
      | inr (e, later) ↦ rw (e, e) (find_first-change kept xs y later)
    ]

    pub length-change_first : (xs : List A) → length (change_first change xs) ≡ length xs
    unfolding change_first
    length-change_first [] = refl
    length-change_first (x ∷ xs) = elim (Bool-cases (test x)) [
      | inl e ↦ rw e refl
      | inr e ↦ rw e (ap suc (length-change_first xs))
    ]

-- What a change does to another test's answers.
module _ {ℓ} {A : Type ℓ} (test other : A → Bool) (change : A → A) where
  pub find_first-change_other :
      ((x : A) → test x ≡ true → (other x ≡ false) × (other (change x) ≡ false))
      → (xs : List A) → find_first other (change_first test change xs) ≡ find_first other xs
  unfolding find_first change_first
  find_first-change_other apart [] = refl
  find_first-change_other apart (x ∷ xs) = elim (Bool-cases (test x)) [
    | inl e ↦ rw (e, (apart x e).0, (apart x e).1) refl
    | inr e ↦
        rw e (ap (λ rest. if other x then some x else rest) (find_first-change_other apart xs))
  ]

  pub any_of-change :
      ((x : A) → other (change x) ≡ other x)
      → (xs : List A) → any_of other (change_first test change xs) ≡ any_of other xs
  unfolding any_of change_first
  any_of-change same [] = refl
  any_of-change same (x ∷ xs) = elim (Bool-cases (test x)) [
    | inl e ↦ rw (e, same x) refl
    | inr e ↦ rw e (ap (λ rest. other x || rest) (any_of-change same xs))
  ]
