-- ===== src/Backfill/Moves.antt =====
-- What an operation of chief-of-staff/backend/app/connectors/torqueai_backfill_control.py may do to a
-- window: the life of a window as a relation.
pub mod Calls
use polaris_lab.Base.{
  find_first, change_first, find_first-cases, ℕ, String, true, false, none, some, List, [], ◌∷◌,
  ◌++◌, All, ◌≡◌, refl, ap, ◌∙◌, ◌⊎◌, inl, inr, Bool-cases, arith,
}
use polaris_lab.Backfill.Tables.{
  Status, planned, previewed, approved, failed, blocked, Window, is_window, find_window,
  update_window,
}
use polaris_lab.Backfill.Preview.{
  is_settled, is_live, is_claim_of, claimed, finished_window, approve_row,
}

-- How a preview may end.
pub data IsVerdict : Status → Type 0 where
  clean : IsVerdict previewed
  conflicting : IsVerdict blocked
  broken : IsVerdict failed

-- The life of a window: it is claimed when it is not settled and no claim is live, a claim that is live
-- ends in a verdict, and only a previewed window is approved.
pub data Moves (w w' : Window) : Type 0 where
  stays : w' ≡ w → Moves w w'
  claims :
      (attempt_id : String) (now : ℕ)
      → is_settled w.status ≡ false
      → is_live w now ≡ false
      → w' ≡ claimed attempt_id now w
      → Moves w w'
  finishes :
      (attempt_id : String) (status : Status) (checked_at now : ℕ)
      → IsVerdict status
      → is_claim_of attempt_id w ≡ true
      → is_live w checked_at ≡ true
      → w' ≡ finished_window status now w
      → Moves w w'
  approves :
      (operator : String) (now : ℕ)
      → w.status ≡ previewed
      → w' ≡ approve_row operator now w
      → Moves w w'

abbrev pub IsFresh : Window → Type 0
IsFresh w = (w.status ≡ planned) × (w.active_attempt_id ≡ none)

-- Every window makes one move, none is lost, and `A` holds of those that were added.
abbrev pub AllMove : (List Window → Type 0) → List Window → List Window → Type 0
AllMove A [] added = A added
AllMove A (w ∷ windows) [] = ⊥
AllMove A (w ∷ windows) (w' ∷ windows') = Moves w w' × AllMove A windows windows'

abbrev pub IsNone : List Window → Type 0
IsNone [] = Unit
IsNone (w ∷ windows) = ⊥

abbrev pub AreFresh : List Window → Type 0
AreFresh windows = All IsFresh windows

pub AllMove-stays : (windows : List Window) → AllMove IsNone windows windows
AllMove-stays [] = tt
AllMove-stays (w ∷ windows) = (stays refl, AllMove-stays windows)

pub AllMove-fresh :
    (windows windows' : List Window)
    → AllMove IsNone windows windows'
    → AllMove AreFresh windows windows'
AllMove-fresh [] [] m = tt
AllMove-fresh [] (w' ∷ windows') m = elim m [ ]
AllMove-fresh (w ∷ windows) [] m = m
AllMove-fresh (w ∷ windows) (w' ∷ windows') m = (m.0, AllMove-fresh windows windows' m.1)

pub AllMove-append :
    (windows added : List Window) → AreFresh added → AllMove AreFresh windows (windows ++ added)
AllMove-append [] added h = h
AllMove-append (w ∷ windows) added h = (stays refl, AllMove-append windows added h)

module _ (organization_id id : String) where
  found_nothing : (w : Window) → find_window organization_id id [] ≡ some w → ⊥
  unfolding find_first
  found_nothing w h = cc

  pub update_window-AllMove :
      (change : Window → Window) (w : Window) (windows : List Window)
      → find_window organization_id id windows ≡ some w
      → Moves w (change w)
      → AllMove IsNone windows (update_window organization_id id change windows)
  unfolding change_first
  update_window-AllMove change w [] h m = absurd (found_nothing w h)
  update_window-AllMove change w (x ∷ windows) h m =
      elim (find_first-cases (is_window organization_id id) x w windows h) [
        | inl (e, same) ↦ rw (e, same) (m, AllMove-stays windows)
        | inr (e, later) ↦ rw e (stays refl, update_window-AllMove change w windows later m)
      ]

  Moves-is_window :
      (w w' : Window)
      → Moves w w'
      → is_window organization_id id w' ≡ is_window organization_id id w
  unfolding is_window
  Moves-is_window w w' (stays e) = rw e refl
  Moves-is_window w w' (claims a now u l e) = rw e refl
  Moves-is_window w w' (finishes a s c now v k l e) = rw e refl
  Moves-is_window w w' (approves o now p e) = rw e refl

  find_here :
      (x : Window) (windows : List Window)
      → is_window organization_id id x ≡ true
      → find_window organization_id id (x ∷ windows) ≡ some x
  unfolding find_first
  find_here x windows e = rw e refl

  find_later :
      (x : Window) (windows : List Window)
      → is_window organization_id id x ≡ false
      → find_window organization_id id (x ∷ windows) ≡ find_window organization_id id windows
  unfolding find_first
  find_later x windows e = rw e refl

  -- A window that is found is found again, after its move.
  pub AllMove-find :
      (w : Window) (windows windows' : List Window)
      → find_window organization_id id windows ≡ some w
      → AllMove AreFresh windows windows'
      → (w' : Window) × (find_window organization_id id windows' ≡ some w') × Moves w w'
  AllMove-find w [] windows' h m = absurd (found_nothing w h)
  AllMove-find w (x ∷ windows) [] h m = elim m [ ]
  AllMove-find w (x ∷ windows) (x' ∷ windows') h (m, ms) =
      elim (find_first-cases (is_window organization_id id) x w windows h) [
        | inl (e, same) ↦ (x', find_here x' windows' (Moves-is_window x x' m ∙ e), rw (← same) m)
        | inr (e, later) ↦
            let (w', found, moved) = AllMove-find w windows windows' later ms in
            (w', find_later x' windows' (Moves-is_window x x' m ∙ e) ∙ found, moved)
      ]

-- A window that is not planned has no claim.
abbrev pub IsClosed : Window → Type 0
IsClosed w = (w.status ≡ planned) ⊎ (w.active_attempt_id ≡ none)

approved-IsClosed :
    (operator : String) (now : ℕ) (w : Window)
    → w.status ≡ previewed
    → IsClosed w
    → IsClosed (approve_row operator now w)
approved-IsClosed operator now w p (inl q) = cc
approved-IsClosed operator now w p (inr q) = inr q

Moves-IsClosed : (w w' : Window) → Moves w w' → IsClosed w → IsClosed w'
Moves-IsClosed w w' (stays e) h = rw e h
Moves-IsClosed w w' (claims a now u l e) h = rw e (inl refl)
Moves-IsClosed w w' (finishes a s c now v k l e) h = rw e (inr refl)
Moves-IsClosed w w' (approves o now p e) h = rw e (approved-IsClosed o now w p h)

pub AllMove-IsClosed :
    (windows windows' : List Window)
    → AllMove AreFresh windows windows'
    → All IsClosed windows
    → All IsClosed windows'
AllMove-IsClosed [] [] m h = tt
AllMove-IsClosed [] (w' ∷ windows') (fresh, m) h = (inl fresh.0, AllMove-IsClosed [] windows' m tt)
AllMove-IsClosed (w ∷ windows) [] m h = elim m [ ]
AllMove-IsClosed (w ∷ windows) (w' ∷ windows') (m, ms) (h, hs) =
    (Moves-IsClosed w w' m h, AllMove-IsClosed windows windows' ms hs)

unclaimed :
    (attempt_id : String) (w : Window)
    → w.active_attempt_id ≡ none
    → is_claim_of attempt_id w ≡ false
unclaimed attempt_id w h = ground arith

-- An approved window stays as it is.
pub Moves-approved : (w w' : Window) → Moves w w' → IsClosed w → w.status ≡ approved → w' ≡ w
Moves-approved w w' (stays e) h a = e
Moves-approved w w' (claims attempt now u l e) h a = cc (ap is_settled a)
Moves-approved w w' (finishes attempt s c now v k l e) (inl p) a = cc
Moves-approved w w' (finishes attempt s c now v k l e) (inr n) a = cc (unclaimed attempt w n)
Moves-approved w w' (approves o now p e) h a = cc
