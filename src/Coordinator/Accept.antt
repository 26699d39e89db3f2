-- ===== src/Coordinator/Accept.antt =====
-- `accept` of scripts/actions_journal_coordinator.py.
use zach.Common.{true, ◌&&◌, none, some, [], ◌∷◌, ◌++◌, String, leb, ltb, str_eq}
use zach.Python.Value.{get, as_str}
use zach.Action.{Action, require, or_raise, pure, lift, ◌>>=◌, ◌>>◌}
use zach.Action.Error.{CoordinatorCode, coordinator_error, other_exception}
use zach.Platform.{Platform}
use zach.Journal.Record.{JournalSnapshot}
use zach.Journal.Api.{Transport}
use zach.Coordinator.Policy.{TrustedIssuePolicy, max_event_bytes, validate_policy}
use zach.Coordinator.Cli.{Host, record_from_stdout, invoke, write_private, with_directory}
use zach.Coordinator.Results.{
  AcceptanceResult, is_acceptance_metadata, is_acceptance_of, policy_arguments,
}
use zach.Coordinator.Store.{load_snapshot, publish_record}

module _ {B W : Type 0} (p : Platform B) (host : Host B W) (cli_executable : String) where
  -- The block of `accept` that replays a stored record.
  unfoldable pub replay_acceptance :
      TrustedIssuePolicy
      → String
      → String
      → String
      → String
      → JournalSnapshot
      → String
      → Action W AcceptanceResult
  replay_acceptance policy actor_ids directory event_path request_id snapshot stored = do
    record_path ← write_private host directory "record.json" (p.encode stored)
    replay ←
        invoke p host cli_executable "replay"
          ("--record" ∷ record_path ∷ "--event" ∷ event_path ∷ policy_arguments policy actor_ids)
          (0 ∷ [])
    replayed ← lift (record_from_stdout p replay.stdout (some request_id))
    lift (
        require (str_eq replayed.0 stored)
          (coordinator_error CoordinatorCode.replay_record_changed))
    pure (record {
      request_id = request_id;
      durable_revision = snapshot.head_sha;
      record_json = stored;
      replayed = true;
    })

module _ {B W : Type 0} (p : Platform B) (request : Transport W) where
  unfoldable pub publish_acceptance : JournalSnapshot → String → String → Action W AcceptanceResult
  publish_acceptance snapshot request_id candidate = do
    receipt ← publish_record p request snapshot request_id candidate
    pure (record {
      request_id = request_id;
      durable_revision = receipt.commit_sha;
      record_json = candidate;
      replayed = receipt.replayed;
    })

module _ {B W : Type 0} (p : Platform B) (request : Transport W) (host : Host B W)
    (cli_executable : String) where
  unfoldable pub accept_in :
      B → TrustedIssuePolicy → String → String → String → String → Action W AcceptanceResult
  accept_in event policy actor_ids accepted_at policy_revision directory = do
    event_path ← write_private host directory "event.json" event
    accepted ←
        invoke p host cli_executable "accept"
          (("--event" ∷ event_path ∷ policy_arguments policy actor_ids)
            ++ "--accepted-at" ∷ accepted_at ∷ "--policy-revision" ∷ policy_revision ∷ [])
          (0 ∷ [])
    candidate ← lift (record_from_stdout p accepted.stdout none)
    lift (
        require (is_acceptance_of policy accepted_at policy_revision candidate.1)
          (coordinator_error CoordinatorCode.cli_acceptance_mismatch))
    request_id ← lift (or_raise (as_str (get "request_id" candidate.1)) other_exception)
    snapshot ← load_snapshot p request request_id
    elim snapshot.record_json [
      | some stored ↦
          replay_acceptance p host cli_executable policy actor_ids directory event_path request_id
            snapshot stored
      | none ↦ publish_acceptance p request snapshot request_id candidate.0
    ]

  unfoldable pub accept : B → TrustedIssuePolicy → String → String → Action W AcceptanceResult
  accept event policy accepted_at policy_revision = do
    lift (
        require (ltb 0 (p.size event) && leb (p.size event) max_event_bytes)
          (coordinator_error CoordinatorCode.invalid_event))
    actor_ids ← lift (validate_policy policy)
    lift (
        require (is_acceptance_metadata accepted_at policy_revision)
          (coordinator_error CoordinatorCode.invalid_acceptance_metadata))
    with_directory host (accept_in event policy actor_ids accepted_at policy_revision)
