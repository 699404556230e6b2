-- ===== src/Dispatch/Claims.antt =====
-- What a claim of chief-of-staff/backend/app/connectors/torqueai_scheduler.py does to the slots, and what a
-- trigger leaves in the database.
use polaris_lab.Base.Int.{pos, negsuc}
use polaris_lab.Python.Value.{Value, null, bool, int, float, text, list, object}
use polaris_lab.Python.Text.{is_empty}
use polaris_lab.Base.{
  find_first-test, eq_iff, ◌/◌, ◌+◌, ◌&&◌, sym, any_of-append, any_of-change, ◌∙◌, leb, ℕ, String,
  true, false, neither, Option, none, some, List, [], ◌∷◌, ◌++◌, eq→==, str_eq, str_eq_refl, ◌≡◌,
  refl, ◌⊎◌, inl, inr, Bool-cases, arith,
}
use polaris_lab.Python.Text.{is_empty}
use polaris_lab.Backfill.Tables.{Organization}
use polaris_lab.Dispatch.Request.{setting}
use polaris_lab.Dispatch.Tables.{SyncRun, DispatchTables, DispatchSession, is_run, change_run}
use polaris_lab.Dispatch.Slots.{
  invalid_timestamp, timestamp_bound, find_active, SlotWindow, Sync, Trigger, escaped, has_run_id,
  has_slot, is_of_slot, scheduled_sync_enabled, slot_and_window, stopped, sync_error, synced,
}
use polaris_lab.Dispatch.Schedule.{
  ClaimRefusals, Stage, early, under_claim, claimed_row, is_duplicate, after_duplicate,
  claim_scheduled_run, found_organization, resolve_scheduled_organization, after_claim,
  after_organization, after_resolve, prepare_run,
}

-- A session that a request opens.
abbrev pub opened : DispatchTables → DispatchSession
opened tables = record { committed = tables; working = tables }

-- A slot that had a run has one.
abbrev pub KeepsSlots : List SyncRun → List SyncRun → Type 0
KeepsSlots runs runs' =
    (organization_id : String) (slot : ℕ)
    → has_slot organization_id slot runs ≡ true
    → has_slot organization_id slot runs' ≡ true

pub KeepsSlots-append : (runs : List SyncRun) (r : SyncRun) → KeepsSlots runs (runs ++ r ∷ [])
KeepsSlots-append runs r o n h = ground (arith, any_of-append (is_of_slot o n) runs r)

pub KeepsSlots-change :
    (organization_id run_id : String) (change : SyncRun → SyncRun)
    → ((o : String) (n : ℕ) (r : SyncRun) → is_of_slot o n (change r) ≡ is_of_slot o n r)
    → (runs : List SyncRun) → KeepsSlots runs (change_run organization_id run_id change runs)
KeepsSlots-change organization_id run_id change same runs o n h =
    any_of-change (is_run organization_id run_id) (is_of_slot o n) change (same o n) runs ∙ h

-- The slot had no run and has one now, committed.
pub record IsClaimed (tables : DispatchTables) (organization_id : String) (slot : ℕ)
    (s : DispatchSession) : Type 0 where
  pub fresh : has_slot organization_id slot tables.runs ≡ false
  pub taken : has_slot organization_id slot s.committed.runs ≡ true
  pub kept : KeepsSlots tables.runs s.committed.runs
  pub clean : s.working ≡ s.committed

-- The hour and the last seven days of a timestamp, counted from 1970.
pub record IsWindowOf (timestamp : Value) (w : SlotWindow) : Type 0 where
  pub second : ℕ
  pub exact : timestamp ≡ int (pos second)
  pub slot : w.slot ≡ second / 3600
  pub last_day : w.last_day ≡ 719163 + second / 86400
  pub days : w.first_day + 6 ≡ w.last_day

-- The trigger is switched on, its window is that of its timestamp, and its organization is the active one
-- that both settings name.
pub record IsOwn (t : Trigger) (o : Organization) (w : SlotWindow) : Type 0 where
  pub on : scheduled_sync_enabled t.enabled ≡ true
  pub window : IsWindowOf t.timestamp w
  pub slug : o.slug ≡ setting t.scheduled_slug
  pub active : o.status ≡ "active"
  pub scope : o.slug ≡ setting t.connector_slug

abbrev IsClaim :
    Trigger → DispatchTables → String → ℕ → Sync (Option String) × DispatchSession → Type 0
IsClaim t tables o slot (stopped (sync_error code), s) = s.committed ≡ tables
IsClaim t tables o slot (stopped (escaped e), s) = ⊥
IsClaim t tables o slot (synced none, s) = s.committed ≡ tables
IsClaim t tables o slot (synced (some run_id), s) =
    (run_id ≡ t.drawn_run_id) × IsClaimed tables o slot s

abbrev pub IsPrepared : Trigger → DispatchTables → Sync Stage × DispatchSession → Type 0
IsPrepared t tables (stopped (sync_error code), s) = s.committed ≡ tables
IsPrepared t tables (stopped (escaped e), s) = ⊥
IsPrepared t tables (synced (early r), s) = (r.dispatch_claimed ≡ false) × (s.committed ≡ tables)
IsPrepared t tables (synced (under_claim o w run_id), s) =
    (run_id ≡ t.drawn_run_id) × IsOwn t o w × IsClaimed tables o.id w.slot s

own_slot :
    (t : Trigger) (o : String) (w : SlotWindow) → is_of_slot o w.slot (claimed_row t o w) ≡ true
own_slot t o w = rw (str_eq_refl o, eq→== w.slot w.slot refl) refl

slot_and_window-cases :
    (v : Value)
    → (slot_and_window v ≡ stopped invalid_timestamp)
      ⊎ ((w : SlotWindow) × (slot_and_window v ≡ synced w) × IsWindowOf v w)
unfolding slot_and_window
slot_and_window-cases (int (pos t)) = elim (Bool-cases (leb timestamp_bound t)) [
  | inl e ↦ rw e (inl refl)
  | inr e ↦ rw e (
      inr (
        _,
        refl,
        record { second = t; exact = refl; slot = refl; last_day = refl; days = omega arith },
      ))
]
slot_and_window-cases (int (negsuc t)) = inl refl
slot_and_window-cases null = inl refl
slot_and_window-cases (bool b) = inl refl
slot_and_window-cases (float t) = inl refl
slot_and_window-cases (text t) = inl refl
slot_and_window-cases (list t) = inl refl
slot_and_window-cases (object t) = inl refl

module _ (db : ClaimRefusals) where
  after_duplicate-IsClaim :
      (t : Trigger) (o : String) (slot : ℕ) (tables : DispatchTables)
      → IsClaim t tables o slot (after_duplicate db o slot (opened tables))
  after_duplicate-IsClaim t o slot tables = elim (Bool-cases (db.refuses_verify tables)) [
    | inl e ↦ rw e refl
    | inr e ↦ elim (Bool-cases (has_slot o slot tables.runs)) [
      | inl f ↦ rw (e, f) refl
      | inr f ↦ rw (e, f) refl
    ]
  ]

  claim_scheduled_run-IsClaim :
      (t : Trigger) (o : String) (w : SlotWindow) (tables : DispatchTables)
      → IsClaim t tables o w.slot (claim_scheduled_run db t o w (opened tables))
  unfolding claim_scheduled_run
  claim_scheduled_run-IsClaim t o w tables =
      let row = claimed_row t o w in
      let staged = record tables { runs = tables.runs ++ row ∷ [] } in
      elim (Bool-cases (db.refuses_claim staged)) [
        | inl e ↦ rw e refl
        | inr e ↦ elim (Bool-cases (is_duplicate row w.slot tables.runs)) [
          | inl f ↦ rw (e, f) (after_duplicate-IsClaim t o w.slot tables)
          | inr f ↦
              let (new_id, new_slot) =
                neither (has_run_id t.drawn_run_id tables.runs) (has_slot o w.slot tables.runs) f in
              rw (e, f)
                (
                  refl,
                  record {
                    fresh = new_slot;
                    taken = ground (
                      arith,
                      any_of-append (is_of_slot o w.slot) tables.runs row,
                      own_slot t o w,
                    );
                    kept = KeepsSlots-append tables.runs row;
                    clean = refl;
                  },
                )
        ]
      ]

  module _ (organizations : List Organization) where
    after_claim-IsPrepared :
        (t : Trigger) (tables : DispatchTables) (o : Organization) (w : SlotWindow)
        (claim : Sync (Option String)) (s : DispatchSession)
        → IsOwn t o w
        → IsClaim t tables o.id w.slot (claim, s)
        → IsPrepared t tables (after_claim db organizations o w claim, s)
    after_claim-IsPrepared t tables o w (stopped (sync_error code)) s own h = h
    after_claim-IsPrepared t tables o w (stopped (escaped e)) s own h = h
    after_claim-IsPrepared t tables o w (synced none) s own h = (refl, h)
    after_claim-IsPrepared t tables o w (synced (some run_id)) s own (drawn, h) = (drawn, own, h)

    find_active-IsOwn :
        (t : Trigger) (w : SlotWindow) (o : Organization)
        → scheduled_sync_enabled t.enabled ≡ true
        → IsWindowOf t.timestamp w
        → find_active (setting t.scheduled_slug) organizations ≡ some o
        → str_eq (setting t.connector_slug) o.slug ≡ true
        → IsOwn t o w
    find_active-IsOwn t w o on window found scope =
        let named =
          find_first-test
            (λ x. str_eq x.slug (setting t.scheduled_slug) && str_eq x.status "active")
            organizations o found in
        record {
          on = on;
          window = window;
          slug = ground (arith, named, eq_iff o.slug (setting t.scheduled_slug));
          active = ground (arith, named, eq_iff o.status "active");
          scope = sym ((eq_iff (setting t.connector_slug) o.slug).0 scope);
        }

    after_organization-IsPrepared :
        (t : Trigger) (w : SlotWindow) (tables : DispatchTables) (o : Organization)
        → scheduled_sync_enabled t.enabled ≡ true
        → IsWindowOf t.timestamp w
        → find_active (setting t.scheduled_slug) organizations ≡ some o
        → IsPrepared t tables (after_organization db organizations t w (opened tables) (synced o))
    after_organization-IsPrepared t w tables o on window found =
        elim (Bool-cases (is_empty (setting t.connector_slug))) [
          | inl e ↦ rw e refl
          | inr e ↦ elim (Bool-cases (str_eq (setting t.connector_slug) o.slug)) [
            | inr f ↦ rw (e, f) refl
            | inl f ↦
                let claim = claim_scheduled_run db t o.id w (opened tables) in
                rw (e, f)
                  (after_claim-IsPrepared t tables o w claim.0 claim.1
                    (find_active-IsOwn t w o on window found f)
                    (claim_scheduled_run-IsClaim t o.id w tables))
          ]
        ]

    after_found-IsPrepared :
        (t : Trigger) (w : SlotWindow) (tables : DispatchTables) (found : Option Organization)
        → scheduled_sync_enabled t.enabled ≡ true
        → IsWindowOf t.timestamp w
        → find_active (setting t.scheduled_slug) organizations ≡ found
        → IsPrepared t tables (
            after_resolve db organizations t w
              (found_organization db organizations found, opened tables))
    after_found-IsPrepared t w tables none on window found = refl
    after_found-IsPrepared t w tables (some o) on window found =
        after_organization-IsPrepared t w tables o on window found

    resolve-IsPrepared :
        (t : Trigger) (w : SlotWindow) (tables : DispatchTables)
        → scheduled_sync_enabled t.enabled ≡ true
        → IsWindowOf t.timestamp w
        → IsPrepared t tables (
            after_resolve db organizations t w
              (resolve_scheduled_organization db organizations t.scheduled_slug (opened tables)))
    unfolding resolve_scheduled_organization
    resolve-IsPrepared t w tables on window =
        elim (Bool-cases (is_empty (setting t.scheduled_slug))) [
          | inl e ↦ rw e refl
          | inr e ↦ elim (Bool-cases (db.refuses_lookup tables)) [
            | inl f ↦ rw (e, f) refl
            | inr f ↦
                rw (e, f)
                  (after_found-IsPrepared t w tables
                    (find_active (setting t.scheduled_slug) organizations) on window refl)
          ]
        ]

    pub prepare_run-IsPrepared :
        (t : Trigger) (tables : DispatchTables)
        → IsPrepared t tables (prepare_run db organizations t (opened tables))
    unfolding prepare_run
    prepare_run-IsPrepared t tables = elim (slot_and_window-cases t.timestamp) [
      | inl bad ↦ rw bad refl
      | inr (w, e, window) ↦ elim (Bool-cases (scheduled_sync_enabled t.enabled)) [
        | inl on ↦ rw (e, on) (resolve-IsPrepared t w tables on window)
        | inr off ↦ rw (e, off) (refl, refl)
      ]
    ]
