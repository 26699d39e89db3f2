-- ===== src/Handler/Prepare.antt =====
-- `PublisherPhase.prepare` and `_prepare_durable` of scripts/actions_request_handler.py.
use zach.Common.{Option, none, some, String, leb, if◌then◌else◌}
use zach.Python.Value.{Value, get, eq_str}
use zach.Python.Plain.{item}
use zach.Action.{Action, bind, require, pure, lift, try, ◌>>=◌, ◌>>◌}
use zach.Action.Error.{handler_error}
use zach.Platform.{Platform}
use zach.Journal.Record.{parse_and_validate_record}
use zach.Journal.Api.{Transport}
use zach.Coordinator.Policy.{max_event_bytes, is_execution_id}
use zach.Coordinator.Results.{AcceptanceResult, ClaimResult, ClaimDisposition}
use zach.Handler.Bundle.{TrustedReceiptPolicy, text_of, same_fields, canonical_request}
use zach.Handler.Results.{PrepareResult, DurablePrepareCheckpoint}
use zach.Handler.Marker.{PublisherKind}
use zach.Handler.Trusted.{issue_of, matching_publisher_comments}
use zach.Handler.Binding.{guarded, record_at, check_acceptance, load_durable_prepare_checkpoint}
use zach.Handler.Phase.{PublisherPhase, with_code}
use zach.Handler.Checkpoint.{ensure_publisher_comment}
use zach.Handler.Envelope.{
  bundle_of, get_or_empty, intent_envelope, intent_fields, is_ended, check_resumable,
  missing_checkpoint, prepare_envelope, prepared, single_intent, terminal_replay,
  validate_recovered_bundle,
}

module _ {B W : Type 0} (p : Platform B) (api : Transport W) (policy : TrustedReceiptPolicy) where
  -- The block that `_validate_intent_snapshot` guards.
  unfoldable pub check_intent_snapshot : Value → Value → Action W (Unit {0})
  check_intent_snapshot intent' current = do
    request_id ← lift (bind (item "request_id" current) text_of)
    revision ← lift (bind (item "accepted_revision" intent') text_of)
    stored ← record_at p api request_id revision
    check_acceptance p api request_id stored current

  unfoldable pub validate_intent_snapshot : Value → Value → Action W (Unit {0})
  validate_intent_snapshot intent' current = do
    lift (
        require (same_fields intent_fields intent' current)
          (handler_error "publisher_intent_binding_mismatch"))
    guarded (check_intent_snapshot intent' current) "publisher_intent_revision_mismatch"

  unfoldable pub load_publisher_intent : Value → String → Action W Value
  load_publisher_intent record' execution_id = do
    repository ← lift (item "repository_full_name" record')
    number ← lift (item "issue_number" record')
    request_id ← lift (bind (item "request_id" record') text_of)
    matches ←
        matching_publisher_comments p api policy PublisherKind.intent (issue_of p repository number)
          execution_id (some request_id)
    intent' ← lift (single_intent matches)
    validate_intent_snapshot intent' record'
    pure intent'

  -- The intent: written before a claim, and sought after one.
  unfoldable pub intent_for : Value → Value → String → String → Action W Value
  intent_for state record' execution_id revision =
      if eq_str state "accepted"
      then (lift (intent_envelope record' execution_id revision) >>= λ envelope.
          ensure_publisher_comment p api policy PublisherKind.intent envelope >>= λ id.
          pure envelope)
      else load_publisher_intent record' execution_id

  -- The search for the checkpoint of a claim that was granted before.
  unfoldable pub recover_prepared :
      Value → String → String → Action W (Option DurablePrepareCheckpoint)
  recover_prepared record' request_id execution_id = do
    lift (check_resumable record' execution_id)
    let search_checkpoint : Action W (Option DurablePrepareCheckpoint) =
        lift (item "repository_full_name" record') >>= λ repository.
        lift (item "issue_number" record') >>= λ number.
        load_durable_prepare_checkpoint p api policy repository number execution_id
          (some request_id)
        >>= λ checkpoint. pure (some checkpoint)
    try search_checkpoint λ e. lift (missing_checkpoint (get "state" record') e)

  -- The end of `_prepare_durable`: the bundle is stored for the Control phase.
  unfoldable pub store_prepared :
      ClaimDisposition → ClaimResult → Value → Value → String → String → Action W PrepareResult
  store_prepared disposition claim record' intent' request_id execution_id = do
    request ← lift (canonical_request p record')
    accepted ← lift (bind (item "accepted_revision" intent') text_of)
    parameters ← lift (item "parameters" request)
    bundle ← lift (
        bundle_of record' claim.record_json execution_id accepted claim.durable_revision parameters)
    validate_intent_snapshot intent' record'
    ensure_publisher_comment p api policy PublisherKind.prepare
        (prepare_envelope disposition bundle)
    pure (prepared disposition request_id (some bundle))

  -- What a resumption makes of the checkpoint.
  unfoldable pub resume_prepared :
      Option DurablePrepareCheckpoint
      → ClaimResult
      → Value
      → Value
      → String
      → String
      → Action W PrepareResult
  resume_prepared none claim record' intent' request_id execution_id =
      store_prepared ClaimDisposition.reconciliation_required claim record' intent' request_id
        execution_id
  resume_prepared (some checkpoint) claim record' intent' request_id execution_id = do
    lift (validate_recovered_bundle p checkpoint.bundle record')
    pure (prepared ClaimDisposition.reconciliation_required request_id (some checkpoint.bundle))

  -- After the claim, by its disposition.
  unfoldable pub after_claim :
      ClaimDisposition → ClaimResult → Value → String → String → Action W PrepareResult
  after_claim ClaimDisposition.terminal_replay claim intent' request_id execution_id = do
    stored ← lift (parse_and_validate_record p claim.record_json request_id)
    lift (terminal_replay request_id claim.durable_revision stored)
  after_claim ClaimDisposition.reconciliation_required claim intent' request_id execution_id = do
    record' ← lift (parse_and_validate_record p claim.record_json request_id)
    checkpoint ← recover_prepared record' request_id execution_id
    resume_prepared checkpoint claim record' intent' request_id execution_id
  after_claim ClaimDisposition.granted claim intent' request_id execution_id = do
    record' ← lift (parse_and_validate_record p claim.record_json request_id)
    store_prepared ClaimDisposition.granted claim record' intent' request_id execution_id

module _ {B W : Type 0} (p : Platform B) (phase : PublisherPhase B W) where
  unfoldable pub prepare_durable :
      TrustedReceiptPolicy → AcceptanceResult → String → Action W PrepareResult
  prepare_durable policy acceptance execution_id = do
    accepted ← lift (parse_and_validate_record p acceptance.record_json acceptance.request_id)
    state ← lift (item "state" accepted)
    if is_ended state
        then lift (terminal_replay acceptance.request_id acceptance.durable_revision accepted)
        else (intent_for p phase.read_api_transport policy state accepted execution_id
              acceptance.durable_revision
            >>= λ intent'.
                with_code (phase.coordinator.claim acceptance.request_id execution_id)
                  "claim_failed"
                >>= λ claim.
                    after_claim p phase.read_api_transport policy claim.disposition claim intent'
                      acceptance.request_id execution_id)

  -- The end of `prepare` without a Publisher identity, by the claim's disposition.
  unfoldable pub prepared_claim :
      ClaimDisposition → AcceptanceResult → ClaimResult → String → Action W PrepareResult
  prepared_claim ClaimDisposition.terminal_replay acceptance claim execution_id = do
    stored ← lift (parse_and_validate_record p claim.record_json acceptance.request_id)
    lift (terminal_replay acceptance.request_id claim.durable_revision stored)
  prepared_claim ClaimDisposition.reconciliation_required acceptance claim execution_id =
      pure (prepared ClaimDisposition.reconciliation_required acceptance.request_id none)
  prepared_claim ClaimDisposition.granted acceptance claim execution_id = do
    record' ← lift (parse_and_validate_record p claim.record_json acceptance.request_id)
    request ← lift (canonical_request p record')
    parameters ← lift (get_or_empty "parameters" request)
    bundle ← lift (
        bundle_of record' claim.record_json execution_id acceptance.durable_revision
          claim.durable_revision parameters)
    pure (prepared ClaimDisposition.granted acceptance.request_id (some bundle))

  unfoldable pub prepare : B → String → String → String → Action W PrepareResult
  prepare event_bytes execution_id accepted_at policy_revision = do
    lift (
        require (leb (p.size event_bytes) max_event_bytes)
          (handler_error "event_payload_too_large"))
    lift (require (is_execution_id execution_id) (handler_error "invalid_execution_id"))
    acceptance ←
        with_code
          (phase.coordinator.accept event_bytes phase.trusted_issue_policy accepted_at
            policy_revision)
          "acceptance_failed"
    elim phase.trusted_publisher_policy [
      | some policy ↦ prepare_durable policy acceptance execution_id
      | none ↦
          with_code (phase.coordinator.claim acceptance.request_id execution_id) "claim_failed"
          >>= λ claim. prepared_claim claim.disposition acceptance claim execution_id
    ]
