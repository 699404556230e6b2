-- ===== src/Dispatch/Call.antt =====
-- What a call of the dispatch modules in chief-of-staff/backend/app/connectors returns or raises:
-- TorqueAIConnectorError (torqueai.py) and TorqueAIDispatchIngestionError (torqueai_ingestion.py) with their
-- code and the status of the answer, or any exception that no handler of these modules names.
use mathlib.Core.Path.{subst}
use polaris_lab.Base.{ℕ, String, Bool, true, false, Option, ◌≡◌, refl, ◌⊎◌, inl, inr, if◌then◌else◌}

pub data Fault : Type 0 where
  connector_fault ingestion_fault : String → Option ℕ → Fault
  other_fault : Fault

pub data Call {ℓ} (T : Type ℓ) : Type ℓ where
  raised : Fault → Call T
  returned : T → Call T

infixl 5 ◌>>=◌ ◌>>◌
abbrev pub ◌>>=◌ {ℓ κ} : {T : Type ℓ} {U : Type κ} → Call T → (T → Call U) → Call U
raised e >>= later = raised e
returned t >>= later = later t

abbrev pub ◌>>◌ {ℓ} : {U : Type ℓ} → Call (Unit {0}) → Call U → Call U
call >> later = call >>= λ done. later

-- `if test: raise e`
abbrev pub raise_if : Bool → Fault → Call (Unit {0})
raise_if test e = if test then raised e else returned tt

returned-inj {ℓ} : {T : Type ℓ} {t u : T} → returned t ≡ returned u → t ≡ u
returned-inj h = cc

-- The call raises, or returns a value with `P`.
pub data Returns {T : Type 0} (P : T → Type 0) : Call T → Type 0 where
  failed : {e : Fault} → Returns P (raised e)
  gave : {t : T} → P t → Returns P (returned t)

module _ {T : Type 0} (P : T → Type 0) where
  pub Returns-at : (call : Call T) {t : T} → call ≡ returned t → Returns P call → P t
  Returns-at (raised e) h p = cc
  Returns-at (returned t) h (gave p) = subst P (returned-inj h) p

  pub raise_if-Returns :
      (test : Bool) (e : Fault) (later : Call T)
      → (test ≡ false → Returns P later)
      → Returns P (raise_if test e >> later)
  raise_if-Returns true e later h = failed
  raise_if-Returns false e later h = h refl

  pub >>=-Returns {κ} :
      {U : Type κ} (call : Call U) (then_do : U → Call T)
      → ((u : U) → call ≡ returned u → Returns P (then_do u))
      → Returns P (call >>= then_do)
  >>=-Returns (raised e) then_do h = failed
  >>=-Returns (returned u) then_do h = h u refl

  -- The same, when something is known of the call.
  pub >>=-Gives :
      {U : Type 0} {Q : U → Type 0} {call : Call U} (then_do : U → Call T)
      → Returns Q call
      → ((u : U) → Q u → Returns P (then_do u))
      → Returns P (call >>= then_do)
  >>=-Gives then_do failed h = failed
  >>=-Gives then_do (gave {t} q) h = h t q

pub Call-cases {ℓ} :
    {T : Type ℓ} (r : Call T) → ((t : T) × (r ≡ returned t)) ⊎ ((e : Fault) × (r ≡ raised e))
Call-cases (returned t) = inl (t, refl)
Call-cases (raised e) = inr (e, refl)
