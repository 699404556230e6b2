-- ===== src/Backfill/Previews.antt =====
-- What the three transactions of `preview` of
-- chief-of-staff/backend/app/connectors/torqueai_backfill_control.py come to.
use polaris_lab.Base.{
  if◌then◌else◌, ℕ, String, Bool, true, false, ◌&&◌, not, Option, none, some, List, ◌≡◌, refl,
}
use polaris_lab.Backfill.Control.{
  Controlled, control_error, done, >>=-eq-done, found_or-eq-done, check_label, check_sha, Done,
  reached, Done-at, refuse_if-Done, >>=-Done, >>-Done, found_or-Done, refuse_if,
}
use polaris_lab.Backfill.Tables.{
  Interval, Status, Window, Organization, Attempt, Ledger, find_window, find_attempt, is_attempt,
}
use polaris_lab.Backfill.Reports.{Report, Evidence}
use polaris_lab.Backfill.Preview.{
  is_complete, no_evidence, the_window, attempt_by_key, claim_or_retry, begin_preview,
  finish_preview, Previewed, stored, fetched, claimed_window, after_finish, after_claimed,
  after_begin, preview,
}
use polaris_lab.Backfill.Plan.{check_tenant}
use polaris_lab.Backfill.Steps.{Runs}
use polaris_lab.Backfill.Verdicts.{after_begin-Runs}

module _ (organizations : List Organization) (uuid : ℕ → String) (fingerprint : Evidence → String)
    (preview_history : Interval → Report) (organization_id window_id request_key : String) where
  -- A claim that was just made: no attempt of the window had the key.
  abbrev IsFresh : Ledger Evidence → (String × Bool) × Ledger Evidence → Type 0
  IsFresh l ((attempt_id, false), l') = Unit
  IsFresh l ((attempt_id, true), l') =
      attempt_by_key organizations uuid fingerprint organization_id window_id request_key l ≡ none

  claim_or_retry-IsFresh :
      (operator code_sha : String) (now : ℕ) (w : Window) (l : Ledger Evidence)
      (found : Option (Attempt Evidence))
      → attempt_by_key organizations uuid fingerprint organization_id window_id request_key l
        ≡ found
      → Done (IsFresh l) (
          claim_or_retry organizations uuid fingerprint organization_id window_id request_key
            operator code_sha now w l found)
  claim_or_retry-IsFresh operator code_sha now w l (some previous) h =
      >>-Done (IsFresh l) (refuse_if _ "Retry key metadata changed") _ (reached tt)
  claim_or_retry-IsFresh operator code_sha now w l none h =
      >>-Done (IsFresh l) (refuse_if _ "Approved/executing window cannot be re-previewed") _
        (>>-Done (IsFresh l) (refuse_if _ "Preview claim already active") _ (reached h))

  begin-IsFresh :
      (operator code_sha : String) (now : ℕ) (l : Ledger Evidence)
      → Done (IsFresh l) (
          begin_preview organizations uuid fingerprint organization_id window_id request_key
            operator code_sha now l)
  unfolding begin_preview
  begin-IsFresh operator code_sha now l = >>-Done (IsFresh l) (check_label request_key) _ (
      >>-Done (IsFresh l) (check_label operator) _ (
        >>-Done (IsFresh l) (check_sha code_sha) _ (
          >>=-Done (IsFresh l)
            (the_window organizations uuid fingerprint organization_id window_id l) _
            λ w known. claim_or_retry-IsFresh operator code_sha now w l _ refl)))

  -- The evidence of a complete attempt is handed out, and the ledger is that of the first transaction.
  pub record IsStored (l' : Ledger Evidence) (attempt_id : String) (evidence : Evidence)
      : Type 0 where
    pub attempt : Attempt Evidence
    pub listed : find_attempt (is_attempt organization_id attempt_id) l'.attempts ≡ some attempt
    pub complete : is_complete attempt ≡ true
    pub kept : attempt.evidence ≡ some evidence

  -- The report was fetched once, for the window, under a claim that this call made, and finished.
  pub record IsFetched (l l1 l' : Ledger Evidence) (attempt_id : String) (created : Bool)
      (checked_at now : ℕ) (report : Report) : Type 0 where
    pub own : created ≡ true
    pub fresh :
        attempt_by_key organizations uuid fingerprint organization_id window_id request_key l ≡ none
    pub window : Window
    pub known : find_window organization_id window_id l1.windows ≡ some window
    pub report_of : report ≡ preview_history window.interval
    pub answered : Status
    pub kept_report :
        finish_preview organizations uuid fingerprint organization_id window_id attempt_id report
          checked_at now l1
        ≡ done (answered, l')

  module _ (operator code_sha : String) (begun checked_at now : ℕ) where
    -- How the call went on from a first transaction that was done.
    pub record HasBegun (l : Ledger Evidence) (went : String → Bool → Ledger Evidence → Type 0)
        : Type 0 where
      pub attempt_id : String
      pub created : Bool
      pub begun_ledger : Ledger Evidence
      pub first :
          begin_preview organizations uuid fingerprint organization_id window_id request_key
            operator code_sha begun l
          ≡ done ((attempt_id, created), begun_ledger)
      pub rest : went attempt_id created begun_ledger

    abbrev pub Previews : Ledger Evidence → Controlled Previewed × Ledger Evidence → Type 0
    Previews l (control_error message, l') = Unit
    Previews l (done (stored evidence), l') =
        HasBegun l (λ attempt_id created l1. (l' ≡ l1) × IsStored l1 attempt_id evidence)
    Previews l (done (fetched report), l') =
        HasBegun l
          (λ attempt_id created l1. IsFetched l l1 l' attempt_id created checked_at now report)

    -- What the second transaction answers.
    abbrev Claims : String → Bool → Ledger Evidence → Option Evidence × Window → Type 0
    Claims attempt_id created l1 (some evidence, w) = IsStored l1 attempt_id evidence
    Claims attempt_id created l1 (none, w) =
        (created ≡ true) × (find_window organization_id window_id l1.windows ≡ some w)

    evidence_or_claim :
        (attempt_id : String) (created : Bool) (l1 : Ledger Evidence) (w : Window)
        (a : Attempt Evidence) (complete : Bool) (evidence : Option Evidence)
        → find_attempt (is_attempt organization_id attempt_id) l1.attempts ≡ some a
        → find_window organization_id window_id l1.windows ≡ some w
        → is_complete a ≡ complete
        → a.evidence ≡ evidence
        → (complete && no_evidence evidence) ≡ false
        → (not complete && not created) ≡ false
        → Claims attempt_id created l1 (if complete then evidence else none, w)
    evidence_or_claim attempt_id created l1 w a true (some e) listed known c k p q = record {
      attempt = a;
      listed = listed;
      complete = c;
      kept = k;
    }
    evidence_or_claim attempt_id created l1 w a true none listed known c k p q = cc
    evidence_or_claim attempt_id true l1 w a false evidence listed known c k p q = (refl, known)
    evidence_or_claim attempt_id false l1 w a false evidence listed known c k p q = cc

    claimed_window-Claims :
        (attempt_id : String) (created : Bool) (l1 : Ledger Evidence)
        → Done (Claims attempt_id created l1) (
            claimed_window organizations uuid fingerprint preview_history organization_id window_id
              attempt_id created l1)
    claimed_window-Claims attempt_id created l1 =
        let P = Claims attempt_id created l1 in
        >>=-Done P (the_window organizations uuid fingerprint organization_id window_id l1) _
          λ w known.
            found_or-Done P "No row was found when one was required"
              (find_attempt (is_attempt organization_id attempt_id) l1.attempts) _
              λ a listed. refuse_if-Done P (is_complete a && no_evidence a.evidence) _ _ λ p.
                refuse_if-Done P (not (is_complete a) && not created) _ _ λ q. reached (
                  evidence_or_claim attempt_id created l1 w a (is_complete a) a.evidence listed
                    (found_or-eq-done "Unknown tenant window"
                      (find_window organization_id window_id l1.windows)
                      (>>=-eq-done (check_tenant organizations uuid organization_id) _ known).2)
                    refl refl p q)

    after_finish-Previews :
        (l l1 : Ledger Evidence) (attempt_id : String) (created : Bool) (w : Window)
        (call : Controlled (Status × Ledger Evidence))
        → begin_preview organizations uuid fingerprint organization_id window_id request_key
            operator code_sha begun l
          ≡ done ((attempt_id, created), l1)
        → (created ≡ true) × (find_window organization_id window_id l1.windows ≡ some w)
        → finish_preview organizations uuid fingerprint organization_id window_id attempt_id
            (preview_history w.interval)
            checked_at
            now
            l1
          ≡ call
        → Previews l (
            after_finish organizations uuid fingerprint preview_history organization_id
              (preview_history w.interval)
              l1
              call)
    after_finish-Previews l l1 attempt_id created w (control_error message) d h e = tt
    after_finish-Previews l l1 attempt_id false w (done (status, l')) d (own, known) e = cc
    after_finish-Previews l l1 attempt_id true w (done (status, l')) d (own, known) e = record {
      attempt_id = attempt_id;
      created = true;
      begun_ledger = l1;
      first = d;
      rest = record {
        own = refl;
        fresh = Done-at (IsFresh l) _ d (begin-IsFresh operator code_sha begun l);
        window = w;
        known = known;
        report_of = refl;
        answered = status;
        kept_report = e;
      };
    }

    after_claimed-Previews :
        (l l1 : Ledger Evidence) (attempt_id : String) (created : Bool)
        (call : Controlled (Option Evidence × Window))
        → begin_preview organizations uuid fingerprint organization_id window_id request_key
            operator code_sha begun l
          ≡ done ((attempt_id, created), l1)
        → Done (Claims attempt_id created l1) call
        → Previews l (
            after_claimed organizations uuid fingerprint preview_history organization_id window_id
              attempt_id checked_at now l1 call)
    after_claimed-Previews l l1 attempt_id created (control_error message) d h = tt
    after_claimed-Previews l l1 attempt_id created (done (some evidence, w)) d h = record {
      attempt_id = attempt_id;
      created = created;
      begun_ledger = l1;
      first = d;
      rest = (refl, Done-at (Claims attempt_id created l1) (done (some evidence, w)) refl h);
    }
    after_claimed-Previews l l1 attempt_id created (done (none, w)) d h =
        after_finish-Previews l l1 attempt_id created w _ d
          (Done-at (Claims attempt_id created l1) (done (none, w)) refl h) refl

    after_begin-Previews :
        (l : Ledger Evidence) (call : Controlled ((String × Bool) × Ledger Evidence))
        → begin_preview organizations uuid fingerprint organization_id window_id request_key
            operator code_sha begun l
          ≡ call
        → Previews l (
            after_begin organizations uuid fingerprint preview_history organization_id window_id
              checked_at now l call)
    after_begin-Previews l (control_error message) d = tt
    after_begin-Previews l (done ((attempt_id, created), l1)) d =
        after_claimed-Previews l l1 attempt_id created _ d
          (claimed_window-Claims attempt_id created l1)

    -- A preview leaves the ledger, whatever it answers and in whichever of its three transactions it
    -- fails, as a sequence of operations that are done leaves it. It answers with stored evidence only
    -- when that is the evidence of the complete attempt that its first transaction named, and then
    -- leaves the ledger as that transaction did. It answers with a report only when its first
    -- transaction made the claim, no attempt of the window having had the key; the report is that of the
    -- window's interval, and the ledger is what finishing the claimed attempt with it left.
    pub preview-Previews :
        (l : Ledger Evidence)
        → let out =
            preview organizations uuid fingerprint preview_history organization_id window_id
              request_key operator code_sha begun checked_at now l in
          Runs organizations uuid fingerprint l out.1 × Previews l out
    unfolding preview
    preview-Previews l = (
      after_begin-Runs organizations uuid fingerprint preview_history organization_id window_id
          request_key operator code_sha begun checked_at now l _ refl,
      after_begin-Previews l _ refl,
    )
