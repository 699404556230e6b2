-- ===== src/Dispatch/Recorded.antt =====
-- What an ingestion of chief-of-staff/backend/app/connectors/torqueai_ingestion.py records of itself: its run
-- and the state of the organization, by what a query for them finds.
use polaris_lab.Base.{
  ℕ, String, Bool, true, false, ◌&&◌, Option, none, some, List, [], ◌∷◌, ◌++◌, length, str_eq,
  str_eq_refl, eq_iff, if◌then◌else◌, find_first, find_first-change, find_first-change_other,
  length-change_first, ◌≡◌, refl, ap, inl, inr, Bool-cases, arith,
}
use polaris_lab.Dispatch.Tables.{change_run, SyncStatus, SyncRun, SyncState, is_run, find_run}
use polaris_lab.Dispatch.Persist.{
  RunCounts, Ingestion, new_run, set_run_result, with_result, put_state,
}

-- The run ended so, with these counts.
pub record HasResult (status : SyncStatus) (c : RunCounts) (code : Option String) (at : ℕ)
    (r : SyncRun) : Type 0 where
  pub ended : r.status ≡ status
  pub pages : r.pages_fetched ≡ c.pages_fetched
  pub total : r.provider_total_count ≡ c.provider_total_count
  pub validated : r.rows_validated ≡ c.rows_validated
  pub inserted : r.rows_inserted ≡ c.rows_inserted
  pub updated : r.rows_updated ≡ c.rows_updated
  pub unchanged : r.rows_unchanged ≡ c.rows_unchanged
  pub error : r.error_code ≡ code
  pub completed : r.completed_at ≡ some at

-- The id of the run: that of the claim, or the one that is drawn.
abbrev pub IsRunOf : Ingestion → Option String → String → Type 0
IsRunOf call none id = id ≡ call.drawn_run_id
IsRunOf call (some run_id) id = id ≡ run_id

run-IsRunOf :
    (call : Ingestion) (claimed : Option String)
    → IsRunOf call claimed (elim claimed [ none ↦ call.drawn_run_id | some run_id ↦ run_id ])
run-IsRunOf call none = refl
run-IsRunOf call (some run_id) = refl

-- A new run for the window of the call, with no slot.
pub record IsNewRun (call : Ingestion) (r : SyncRun) : Type 0 where
  pub id : IsRunOf call call.claimed_run_id r.run_id
  pub organization : r.organization_id ≡ call.organization_id
  pub first_day : r.requested_from ≡ call.date_from
  pub last_day : r.requested_to ≡ call.date_to
  pub slot : r.trigger_slot ≡ none

-- What a run was asked to do stays.
pub record IsSameRequest (r r' : SyncRun) : Type 0 where
  pub id : r'.run_id ≡ r.run_id
  pub organization : r'.organization_id ≡ r.organization_id
  pub first_day : r'.requested_from ≡ r.requested_from
  pub last_day : r'.requested_to ≡ r.requested_to
  pub slot : r'.trigger_slot ≡ r.trigger_slot

module _ (call : Ingestion) (status : SyncStatus) (c : RunCounts) (code : Option String)
    (at : ℕ) where
  -- The run of an id, if there is one, has the result, and every other run is as before.
  pub record IsMarked (run_id : String) (runs runs' : List SyncRun) : Type 0 where
    pub own :
        (r : SyncRun)
        → find_run call.organization_id run_id runs ≡ some r
        → (r' : SyncRun) × (find_run call.organization_id run_id runs' ≡ some r')
          × HasResult status c code at r'
          × IsSameRequest r r'
    pub others :
        (o k : String)
        → (str_eq run_id k && str_eq call.organization_id o) ≡ false
        → find_run o k runs' ≡ find_run o k runs
    pub size : length runs' ≡ length runs

  -- The result is in the claimed run, or in a new one behind the others.
  abbrev pub IsLogged : Option String → List SyncRun → List SyncRun → Type 0
  IsLogged none runs runs' =
      (r : SyncRun) × (runs' ≡ runs ++ r ∷ []) × IsNewRun call r × HasResult status c code at r
  IsLogged (some run_id) runs runs' = IsMarked run_id runs runs'

  is_run-apart :
      (run_id o k : String) (r : SyncRun)
      → (str_eq run_id k && str_eq call.organization_id o) ≡ false
      → is_run call.organization_id run_id r ≡ true
      → is_run o k r ≡ false
  is_run-apart run_id o k r other own =
      ground (arith, eq_iff r.run_id run_id, eq_iff r.organization_id call.organization_id)

  change-IsMarked :
      (run_id : String) (runs : List SyncRun)
      → IsMarked run_id runs
          (change_run call.organization_id run_id (set_run_result status c code at) runs)
  change-IsMarked run_id runs =
      let change = set_run_result status c code at in
      record {
        own = λ r found. (
          change r,
          find_first-change (is_run call.organization_id run_id) change (λ x e. e) runs r found,
          record {
            ended = refl;
            pages = refl;
            total = refl;
            validated = refl;
            inserted = refl;
            updated = refl;
            unchanged = refl;
            error = refl;
            completed = refl;
          },
          record { id = refl; organization = refl; first_day = refl; last_day = refl; slot = refl },
        );
        others = λ o k other.
            find_first-change_other (is_run call.organization_id run_id) (is_run o k) change
              (λ x e. (is_run-apart run_id o k x other e, is_run-apart run_id o k x other e)) runs;
        size = length-change_first (is_run call.organization_id run_id) change runs;
      }

  put_result-IsLogged :
      (claimed : Option String) (runs : List SyncRun)
      → IsLogged claimed runs (elim claimed [
        | none ↦ runs ++ new_run call status c code at ∷ []
        | some run_id ↦
            change_run call.organization_id run_id (set_run_result status c code at) runs
      ])
  put_result-IsLogged none runs = (
    new_run call status c code at,
    refl,
    record {
      id = run-IsRunOf call call.claimed_run_id;
      organization = refl;
      first_day = refl;
      last_day = refl;
      slot = refl;
    },
    record {
      ended = refl;
      pages = refl;
      total = refl;
      validated = refl;
      inserted = refl;
      updated = refl;
      unchanged = refl;
      error = refl;
      completed = refl;
    },
  )
  put_result-IsLogged (some run_id) runs = change-IsMarked run_id runs

  pub with_result-IsLogged :
      (runs : List SyncRun)
      → IsLogged call.claimed_run_id runs (with_result call status c code at runs)
  with_result-IsLogged runs = put_result-IsLogged call.claimed_run_id runs

abbrev pub is_state_of : String → SyncState → Bool
is_state_of organization_id s = str_eq s.organization_id organization_id

-- The organization's state names the window and the run, and the state of every other one is as before.
pub record IsStated (call : Ingestion) (states states' : List SyncState) : Type 0 where
  pub state : SyncState
  pub found : find_first (is_state_of call.organization_id) states' ≡ some state
  pub first_day : state.last_successful_window_start ≡ call.date_from
  pub last_day : state.last_successful_window_end ≡ call.date_to
  pub id : IsRunOf call call.claimed_run_id state.last_successful_run_id
  pub completed : state.last_successful_completed_at ≡ call.completed_at
  pub others :
      (o : String)
      → str_eq call.organization_id o ≡ false
      → find_first (is_state_of o) states' ≡ find_first (is_state_of o) states

module _ (call : Ingestion) where
  abbrev state_of : SyncState
  state_of = record {
    organization_id = call.organization_id;
    last_successful_window_start = call.date_from;
    last_successful_window_end = call.date_to;
    last_successful_run_id = elim call.claimed_run_id [
      | none ↦ call.drawn_run_id
      | some run_id ↦ run_id
    ];
    last_successful_completed_at = call.completed_at;
  }

  put_state-found :
      (states : List SyncState)
      → find_first (is_state_of call.organization_id) (put_state call states) ≡ some state_of
  unfolding put_state find_first
  put_state-found [] = rw (str_eq_refl call.organization_id) refl
  put_state-found (s ∷ states) = elim (Bool-cases (str_eq s.organization_id call.organization_id)) [
    | inl e ↦ rw (e, str_eq_refl call.organization_id) refl
    | inr e ↦ rw (e, e) (put_state-found states)
  ]

  put_state-others :
      (o : String) (states : List SyncState)
      → str_eq call.organization_id o ≡ false
      → find_first (is_state_of o) (put_state call states) ≡ find_first (is_state_of o) states
  unfolding put_state find_first
  put_state-others o [] h = rw h refl
  put_state-others o (s ∷ states) h =
      elim (Bool-cases (str_eq s.organization_id call.organization_id)) [
        | inl e ↦
            let same : s.organization_id ≡ call.organization_id =
              (eq_iff s.organization_id call.organization_id).0 e in
            rw (e, h, same, h) refl
        | inr e ↦
            rw e
              (ap (λ rest. if is_state_of o s then some s else rest) (put_state-others o states h))
      ]

  pub put_state-IsStated : (states : List SyncState) → IsStated call states (put_state call states)
  put_state-IsStated states = record {
    state = state_of;
    found = put_state-found states;
    first_day = refl;
    last_day = refl;
    id = run-IsRunOf call call.claimed_run_id;
    completed = refl;
    others = λ o h. put_state-others o states h;
  }
