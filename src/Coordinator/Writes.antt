-- ===== src/Coordinator/Writes.antt =====
-- What the coordinator has established before it writes to the journal.
use zach.Common.{List, ◌≡◌, ◌⊎◌, true, Option, some, String, arith}
use zach.Python.Value.{Value, get, eq_str}
use zach.Action.{ok, require, or_raise, recode}
use zach.Action.Error.{CoordinatorCode, coordinator_error}
use zach.Action.Checks.{require-ok, or_raise-ok}
use zach.Action.Inversion.{past_lift, past_bind, past_if, past_last, past_map}
use zach.Platform.{Platform}
use zach.Journal.Record.{JournalSnapshot, parse_and_validate_record}
use zach.Journal.Api.{Transport, get_method}
use zach.Journal.Effects.{KeptBy}
use zach.Journal.Gate.{Gate, publish_passed}
use zach.Journal.Publish.{text}
use zach.Coordinator.Policy.{validate_execution_id}
use zach.Coordinator.Cli.{ReturnCode, Host, with_directory}
use zach.Coordinator.Results.{exact_transition, is_exit}
use zach.Coordinator.Store.{load_snapshot, publish_record}
use zach.Coordinator.Printed.{claimed-loads, mutated-loads}
use zach.Coordinator.Claim.{run_claim, grant_claim, claim}
use zach.Coordinator.Owner.{run_mutation, owned_mutation}
use zach.Coordinator.Effects.{
  KeptByHost, with_directory-Confined, run_claim-Confined, run_mutation-Confined,
  load_snapshot-Confined,
}

-- The gate of the journal for the coordinator's transition, at the state `w`.
abbrev pub RecordGate :
    {B W : Type 0} → Platform B → Transport W → JournalSnapshot → String → String → W → Type 0
RecordGate p request snapshot request_id new_record w =
    Gate p request (exact_transition snapshot.record_json new_record) snapshot request_id
      (text new_record) w

-- A write of `claim`: the child ran on the stored record and printed the text that is written, whose JSON
-- value says `executing` and names the claimant.
pub record ClaimWrite {B W : Type 0} (p : Platform B) (request : Transport W) (host : Host B W)
    (cli request_id execution_id : String) (w : W) : Type 0 where
  pub snapshot : JournalSnapshot
  pub stored : String
  pub status : ReturnCode
  pub candidate : String × Value
  pub before : W
  pub at : W
  pub loaded : (load_snapshot p request request_id w).0 ≡ ok snapshot
  pub present : snapshot.record_json ≡ some stored
  pub ran :
      (with_directory host (run_claim p host cli request_id execution_id stored) before).0
      ≡ ok (status, candidate)
  pub loads : p.loads candidate.0 ≡ some candidate.1
  pub executing : eq_str (get "state" candidate.1) "executing" ≡ true
  pub claimed : eq_str (get "execution_id" candidate.1) execution_id ≡ true
  pub gate : RecordGate p request snapshot request_id candidate.0 at

-- A write of a mutation: the stored record names the owner, the child ran on it and printed the text that is
-- written, and the JSON value of this text names the owner.
pub record OwnerWrite {B W : Type 0} (p : Platform B) (request : Transport W) (host : Host B W)
    (cli request_id execution_id command : String) (arguments : List String)
    (reference : Option String) (w : W) : Type 0 where
  pub snapshot : JournalSnapshot
  pub stored : String
  pub parsed : Value
  pub candidate : String × Value
  pub before : W
  pub at : W
  pub loaded : (load_snapshot p request request_id w).0 ≡ ok snapshot
  pub present : snapshot.record_json ≡ some stored
  pub ran :
      (with_directory host
        (run_mutation p host cli request_id stored command arguments reference)
        before).0
      ≡ ok candidate
  pub loads : p.loads candidate.0 ≡ some candidate.1
  pub parses :
      recode
        (coordinator_error CoordinatorCode.stored_record_invalid)
        (parse_and_validate_record p stored request_id)
      ≡ ok parsed
  pub owned : eq_str (get "execution_id" parsed) execution_id ≡ true
  pub kept_owner : eq_str (get "execution_id" candidate.1) execution_id ≡ true
  pub gate : RecordGate p request snapshot request_id candidate.0 at

module _ {B W : Type 0} (p : Platform B) (request : Transport W) (P : W → Type 0)
    (gets : KeptBy P request get_method) (host : Host B W) (kept : KeptByHost P host)
    (cli : String) where
  pub publish_record-Gate :
      (snapshot : JournalSnapshot) (request_id new_record : String) (w : W)
      → P w
      → P (publish_record p request snapshot request_id new_record w).1
        ⊎ RecordGate p request snapshot request_id new_record w
  unfolding publish_record
  publish_record-Gate snapshot request_id new_record w start =
      publish_passed p request P gets (exact_transition snapshot.record_json new_record) snapshot
        request_id (text new_record) w start

  -- What reads and the host keep survives a claim, however it ends, unless the stored record of
  -- the request was loaded first, the child ran on it and printed a text whose JSON value is in the state
  -- `executing` for this claimant, and the publication of exactly that text passed the journal's gate.
  pub claim-Writes :
      (request_id execution_id : String) (w : W)
      → P w
      → P (claim p request host cli request_id execution_id w).1
        ⊎ ClaimWrite p request host cli request_id execution_id w
  unfolding claim grant_claim
  claim-Writes request_id execution_id w start =
      past_lift P (validate_execution_id execution_id) _ w start λ _ _.
        let start₁ = (load_snapshot-Confined p request P gets request_id).keeps w start in
        past_bind P (load_snapshot p request request_id) _ w start₁ λ snapshot loaded.
          past_lift P (or_raise snapshot.record_json _) _ _ start₁ λ stored found.
            let start₂ =
              (with_directory-Confined P host kept _
                  (run_claim-Confined p P host kept cli request_id execution_id stored)).keeps
                _ start₁ in
            past_bind P (with_directory host (run_claim p host cli request_id execution_id stored))
              _ _ start₂
              λ ran printed. past_if P (is_exit 75 ran.0) _ _ _ start₂ λ _.
                past_if P (is_exit 10 ran.0) _ _ _ start₂ λ _.
                  past_lift P (require _ _) _ _ start₂ λ _ good.
                    let shown = require-ok _ _ good in
                    past_last P (publish_record p request snapshot request_id ran.1.0) _ _ (
                      past_map (publish_record-Gate snapshot request_id ran.1.0 _ start₂) λ gate.
                        record {
                          snapshot = snapshot;
                          stored = stored;
                          status = ran.0;
                          candidate = ran.1;
                          before = _;
                          at = _;
                          ran = printed;
                          loads = claimed-loads p host cli request_id execution_id stored _ printed;
                          loaded = loaded;
                          present = or_raise-ok snapshot.record_json _ found;
                          executing = ground arith;
                          claimed = ground arith;
                          gate = gate;
                        })

  -- What reads and the host keep survives `_owned_mutation`, on which `complete`, `mark_ambiguous` and
  -- `reconcile` end, however it ends, unless the stored record, loaded first, names the execution,
  -- so does the JSON value of the text that the child printed for it, and the publication of exactly that text
  -- passed the journal's gate.
  pub owned_mutation-Writes :
      (request_id execution_id command : String) (arguments : List String)
      (reference : Option String) (w : W)
      → P w
      → P
          (owned_mutation p request host cli request_id execution_id command arguments reference
            w).1
        ⊎ OwnerWrite p request host cli request_id execution_id command arguments reference w
  unfolding owned_mutation
  owned_mutation-Writes request_id execution_id command arguments reference w start =
      let start₁ = (load_snapshot-Confined p request P gets request_id).keeps w start in
      past_bind P (load_snapshot p request request_id) _ w start₁ λ snapshot loaded.
        past_lift P (or_raise snapshot.record_json _) _ _ start₁ λ stored found.
          past_lift P (recode _ (parse_and_validate_record p stored request_id)) _ _ start₁
            λ parsed parses.
              past_lift P (require (eq_str (get "execution_id" parsed) execution_id) _) _ _ start₁
                λ _ owner.
                  let start₂ =
                    (with_directory-Confined P host kept _ (
                        run_mutation-Confined p P host kept cli request_id stored command arguments
                          reference)).keeps
                      _ start₁ in
                  past_bind P
                    (with_directory host
                      (run_mutation p host cli request_id stored command arguments reference))
                    _ _ start₂
                    λ candidate printed.
                      past_lift P (require (eq_str (get "execution_id" candidate.1) execution_id) _)
                        _ _ start₂
                        λ _ same.
                          past_last P (publish_record p request snapshot request_id candidate.0) _ _
                            (past_map (publish_record-Gate snapshot request_id candidate.0 _ start₂)
                              λ gate. record {
                                snapshot = snapshot;
                                stored = stored;
                                parsed = parsed;
                                candidate = candidate;
                                before = _;
                                at = _;
                                ran = printed;
                                loads =
                                    mutated-loads p host cli request_id stored command arguments
                                      reference _ printed;
                                loaded = loaded;
                                present = or_raise-ok snapshot.record_json _ found;
                                parses = parses;
                                owned = require-ok _ _ owner;
                                kept_owner = require-ok _ _ same;
                                gate = gate;
                              })
