-- ===== src/Coordinator/Owner.antt =====
-- `complete`, `mark_ambiguous` and `reconcile` of scripts/actions_journal_coordinator.py, which go
-- through `_owned_mutation`.
use zach.Common.{Option, none, some, List, [], ◌∷◌, ◌++◌, String}
use zach.Python.Value.{Value, get, eq_str}
use zach.Action.{Action, require, or_raise, recode, pure, lift, ◌>>=◌, ◌>>◌}
use zach.Action.Error.{CoordinatorCode, coordinator_error}
use zach.Platform.{Platform}
use zach.Journal.Record.{parse_and_validate_record}
use zach.Journal.Api.{Transport}
use zach.Coordinator.Policy.{validate_execution_id}
use zach.Coordinator.Cli.{Host, record_from_stdout, invoke, write_private, with_directory}
use zach.Coordinator.Results.{
  JournalMutationResult, TrustedReconciliationObservation, validate_outcome, reference_arguments,
}
use zach.Coordinator.Store.{load_snapshot, publish_record}

module _ {B W : Type 0} (p : Platform B) (host : Host B W) (cli_executable : String) where
  -- The run of the child in `_owned_mutation`.
  unfoldable pub run_mutation :
      String → String → String → List String → Option String → String → Action W (String × Value)
  run_mutation request_id stored command arguments reference directory = do
    record_path ← write_private host directory "record.json" (p.encode stored)
    invocation ←
        invoke p host cli_executable command
          (("--record" ∷ record_path ∷ arguments) ++ reference_arguments reference) (0 ∷ [])
    lift (record_from_stdout p invocation.stdout (some request_id))

module _ {B W : Type 0} (p : Platform B) (request : Transport W) (host : Host B W)
    (cli_executable : String) where
  unfoldable pub owned_mutation :
      String → String → String → List String → Option String → Action W JournalMutationResult
  owned_mutation request_id execution_id command arguments reference = do
    snapshot ← load_snapshot p request request_id
    stored ←
        lift (or_raise snapshot.record_json (coordinator_error CoordinatorCode.request_not_found))
    parsed ← lift (
        recode (coordinator_error CoordinatorCode.stored_record_invalid)
          (parse_and_validate_record p stored request_id))
    lift (
        require (eq_str (get "execution_id" parsed) execution_id)
          (coordinator_error CoordinatorCode.execution_owner_mismatch))
    candidate ←
        with_directory host
          (run_mutation p host cli_executable request_id stored command arguments reference)
    lift (
        require (eq_str (get "execution_id" candidate.1) execution_id)
          (coordinator_error CoordinatorCode.execution_owner_changed))
    receipt ← publish_record p request snapshot request_id candidate.0
    pure (record {
      request_id = request_id;
      durable_revision = receipt.commit_sha;
      record_json = candidate.0;
      replayed = receipt.replayed;
    })

  unfoldable pub complete :
      String → String → String → String → Option String → Action W JournalMutationResult
  complete request_id execution_id state terminal_code terminal_reference = do
    lift (validate_execution_id execution_id)
    lift (validate_outcome state terminal_code terminal_reference)
    owned_mutation request_id execution_id "complete"
        ("--state" ∷ state ∷ "--code" ∷ terminal_code ∷ []) terminal_reference

  unfoldable pub mark_ambiguous : String → String → Action W JournalMutationResult
  mark_ambiguous request_id execution_id = do
    lift (validate_execution_id execution_id)
    owned_mutation request_id execution_id "ambiguous" [] none

  unfoldable pub reconcile :
      String → String → TrustedReconciliationObservation → Action W JournalMutationResult
  reconcile request_id execution_id observation = do
    lift (validate_execution_id execution_id)
    lift (
        validate_outcome observation.terminal_state observation.terminal_code
          observation.terminal_reference)
    owned_mutation request_id execution_id "reconcile"
        ("--state" ∷ observation.terminal_state ∷ "--code" ∷ observation.terminal_code ∷ [])
        observation.terminal_reference
