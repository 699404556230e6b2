-- ===== src/Backfill/Control.antt =====
-- ControlError and the checks of operators, request keys and code versions, of
-- chief-of-staff/backend/app/connectors/torqueai_backfill_control.py. A call either raises ControlError,
-- and its transaction is rolled back, or it is done.
use Prim.Native.Char.{code}
use mathlib.Core.Path.{subst}
use polaris_lab.Base.{
  String, Bool, true, false, ◌&&◌, ◌||◌, not, Option, none, some, ltb, leb, ◌==◌, str_eq,
  if◌then◌else◌, ◌≡◌, refl, arith,
}
use polaris_lab.Python.Text.{strip, is_empty, text_length}

pub data Controlled {ℓ} (T : Type ℓ) : Type ℓ where
  control_error : String → Controlled T
  done : T → Controlled T

infixl 5 ◌>>=◌ ◌>>◌
abbrev pub ◌>>=◌ {ℓ κ} :
    {T : Type ℓ} {U : Type κ} → Controlled T → (T → Controlled U) → Controlled U
control_error message >>= next = control_error message
done t >>= next = next t

abbrev pub ◌>>◌ {ℓ} : {U : Type ℓ} → Controlled (Unit {0}) → Controlled U → Controlled U
first >> later = first >>= λ nothing. later

-- `if test: raise ControlError(message)`
abbrev pub refuse_if : Bool → String → Controlled (Unit {0})
refuse_if test message = if test then control_error message else done tt

abbrev pub found_or {ℓ} : {T : Type ℓ} → String → Option T → Controlled T
found_or message none = control_error message
found_or message (some t) = done t

-- A sequence that was done went through a first call that was.
pub >>=-eq-done {ℓ κ} :
    {T : Type ℓ} {U : Type κ} (call : Controlled T) (next : T → Controlled U) {u : U}
    → call >>= next ≡ done u
    → (t : T) × (call ≡ done t) × (next t ≡ done u)
>>=-eq-done (control_error message) next h = cc
>>=-eq-done (done t) next h = (t, refl, h)

pub refuse_if-eq-done :
    (test : Bool) (message : String) {u : Unit {0}} → refuse_if test message ≡ done u → test ≡ false
refuse_if-eq-done test message h = ground arith

pub found_or-eq-done {ℓ} :
    {T : Type ℓ} (message : String) (o : Option T) {t : T}
    → found_or message o ≡ done t
    → o ≡ some t
found_or-eq-done message none h = cc
found_or-eq-done message (some t) h = cc

unfoldable pub has_control : String → Bool
has_control String.[] = false
has_control (String.◌∷◌ c s) = ltb (code c) 32 || code c == 127 || has_control s

-- `_label`, with its maximum of 120
unfoldable pub check_label : String → Controlled (Unit {0})
unfolding has_control
check_label value =
    refuse_if
      (is_empty value
        || not (str_eq value (strip value))
        || ltb 120 (text_length value)
        || has_control value)
      "Invalid operator/request label"

unfoldable pub all_hex : String → Bool
all_hex String.[] = true
all_hex (String.◌∷◌ c s) =
    ((leb 48 (code c) && leb (code c) 57) || (leb 97 (code c) && leb (code c) 102)) && all_hex s

-- `_sha`
unfoldable pub check_sha : String → Controlled (Unit {0})
unfolding all_hex
check_sha value =
    refuse_if (not (text_length value == 40 && all_hex value)) "Exact lowercase code SHA required"

-- The call raises ControlError, or is done with `P`.
pub data Done {T : Type 0} (P : T → Type 0) : Controlled T → Type 0 where
  stopped : {message : String} → Done P (control_error message)
  reached : {t : T} → P t → Done P (done t)

pub done-inj {ℓ} : {T : Type ℓ} {t u : T} → done t ≡ done u → t ≡ u
done-inj h = cc

module _ {T : Type 0} (P : T → Type 0) where
  pub Done-at : (call : Controlled T) {t : T} → call ≡ done t → Done P call → P t
  Done-at (control_error message) h p = cc
  Done-at (done t) h (reached p) = subst P (done-inj h) p

  pub refuse_if-Done :
      (test : Bool) (message : String) (later : Controlled T)
      → (test ≡ false → Done P later)
      → Done P (refuse_if test message >> later)
  refuse_if-Done true message later h = stopped
  refuse_if-Done false message later h = h refl

  pub >>-Done :
      (first : Controlled (Unit {0})) (later : Controlled T)
      → Done P later
      → Done P (first >> later)
  >>-Done (control_error message) later h = stopped
  >>-Done (done _) later h = h

  pub >>=-Done {κ} :
      {U : Type κ} (call : Controlled U) (then_do : U → Controlled T)
      → ((u : U) → call ≡ done u → Done P (then_do u))
      → Done P (call >>= then_do)
  >>=-Done (control_error message) then_do h = stopped
  >>=-Done (done u) then_do h = h u refl

  pub found_or-Done {κ} :
      {U : Type κ} (message : String) (o : Option U) (then_do : U → Controlled T)
      → ((u : U) → o ≡ some u → Done P (then_do u))
      → Done P (found_or message o >>= then_do)
  found_or-Done message none then_do h = stopped
  found_or-Done message (some u) then_do h = h u refl

pub Done-map :
    {T : Type 0} (P Q : T → Type 0) (call : Controlled T)
    → ((t : T) → P t → Q t)
    → Done P call
    → Done Q call
Done-map P Q (control_error message) f stopped = stopped
Done-map P Q (done t) f (reached p) = reached (f t p)

pub refuse_if-last :
    (P : Unit {0} → Type 0) (test : Bool) (message : String)
    → (test ≡ false → P tt)
    → Done P (refuse_if test message)
refuse_if-last P true message h = stopped
refuse_if-last P false message h = reached (h refl)

pub passed :
    {T : Type 0} (test : Bool) (message : String) (t u : T)
    → refuse_if test message >> done t ≡ done u
    → t ≡ u
passed true message t u h = cc
passed false message t u h = done-inj h

pub holds_when : (a : Bool) → not a ≡ false → a ≡ true
holds_when a h = ground arith
