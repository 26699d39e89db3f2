-- ===== src/Coordinator/Claim.antt =====
-- `claim` of scripts/actions_journal_coordinator.py.
use zach.Common.{◌&&◌, some, [], ◌∷◌, String, if◌then◌else◌}
use zach.Python.Value.{Value, get, eq_str}
use zach.Action.{Action, require, or_raise, pure, lift, ◌>>=◌, ◌>>◌}
use zach.Action.Error.{CoordinatorCode, coordinator_error}
use zach.Platform.{Platform}
use zach.Journal.Record.{JournalSnapshot}
use zach.Journal.Api.{Transport}
use zach.Coordinator.Policy.{validate_execution_id}
use zach.Coordinator.Cli.{
  ReturnCode, Host, record_from_stdout, invoke, write_private, with_directory,
}
use zach.Coordinator.Results.{
  granted, reconciliation_required, terminal_replay, ClaimResult, unchanged_claim, is_exit,
}
use zach.Coordinator.Store.{load_snapshot, publish_record}

module _ {B W : Type 0} (p : Platform B) (host : Host B W) (cli_executable : String) where
  -- The run of the child in `claim`: its exit status and the record that it printed.
  unfoldable pub run_claim :
      String → String → String → String → Action W (ReturnCode × (String × Value))
  run_claim request_id execution_id stored directory = do
    record_path ← write_private host directory "record.json" (p.encode stored)
    invocation ←
        invoke p host cli_executable "claim"
          ("--record" ∷ record_path ∷ "--execution-id" ∷ execution_id ∷ []) (0 ∷ 10 ∷ 75 ∷ [])
    candidate ← lift (record_from_stdout p invocation.stdout (some request_id))
    pure (invocation.returncode, candidate)

module _ {B W : Type 0} (p : Platform B) (request : Transport W) where
  unfoldable pub grant_claim :
      JournalSnapshot → String → String → String × Value → Action W ClaimResult
  grant_claim snapshot request_id execution_id candidate = do
    lift (
        require
          (eq_str (get "state" candidate.1) "executing"
            && eq_str (get "execution_id" candidate.1) execution_id)
          (coordinator_error CoordinatorCode.claim_candidate_invalid))
    receipt ← publish_record p request snapshot request_id candidate.0
    pure (record {
      request_id = request_id;
      durable_revision = receipt.commit_sha;
      record_json = candidate.0;
      disposition = granted;
    })

module _ {B W : Type 0} (p : Platform B) (request : Transport W) (host : Host B W)
    (cli_executable : String) where
  unfoldable pub claim : String → String → Action W ClaimResult
  claim request_id execution_id = do
    lift (validate_execution_id execution_id)
    snapshot ← load_snapshot p request request_id
    stored ←
        lift (or_raise snapshot.record_json (coordinator_error CoordinatorCode.request_not_found))
    ran ← with_directory host (run_claim p host cli_executable request_id execution_id stored)
    if is_exit 75 ran.0
        then lift (
            unchanged_claim request_id snapshot stored ran.1.0
              CoordinatorCode.reconciliation_record_changed reconciliation_required)
        else if is_exit 10 ran.0
        then lift (
            unchanged_claim request_id snapshot stored ran.1.0
              CoordinatorCode.terminal_replay_record_changed terminal_replay)
        else grant_claim p request snapshot request_id execution_id ran.1
