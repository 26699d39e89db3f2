-- ===== src/Handler/Handle.antt =====
-- `PublisherPhase.reconcile_request` and `ActionsRequestHandler.handle_request` of
-- scripts/actions_request_handler.py.
use zach.Common.{Bool, true, false, not, Option, none, some, [], ◌∷◌, String, if◌then◌else◌}
use zach.Python.Value.{Value, null, str, get, is_null, eq_str}
use zach.Python.Plain.{item, object}
use zach.Action.{Action, bind, require, or_raise, pure, lift, raise, ◌>>=◌, ◌>>◌}
use zach.Action.Error.{handler_error, other_exception}
use zach.Platform.{Platform}
use zach.Journal.Record.{validate_request_id}
use zach.Coordinator.Results.{ClaimDisposition}
use zach.Handler.Bundle.{ExecutionBundle, text_of, construct, canonical_request}
use zach.Handler.Results.{ExecutionReceipt, PrepareResult}
use zach.Handler.Trusted.{Match, issue_of}
use zach.Handler.Binding.{guarded, record_at}
use zach.Handler.Phase.{PublisherPhase}
use zach.Handler.Observe.{observe_receipt}
use zach.Handler.Envelope.{is_ended, replayed_receipt}
use zach.Handler.Prepare.{prepare}
use zach.Handler.Effect.{ControlPhase}
use zach.Handler.Control.{execute}
use zach.Handler.Finalize.{finalize}

-- The receipt of a request whose outcome stays open.
abbrev pub open_receipt : String → String → String → ExecutionReceipt
open_receipt request_id head_sha state = record {
  request_id = request_id;
  durable_revision = head_sha;
  terminal_state = str state;
  terminal_code = str "reconciliation_required";
  terminal_reference = null;
  envelope = object [];
  replayed = false;
  reconciled = false;
}

-- `execution_id is not None and execution_id != owner` raises
abbrev pub is_owner : Option String → Value → Bool
is_owner none owner = true
is_owner (some execution_id) owner = eq_str owner execution_id

module _ {B W : Type 0} (p : Platform B) (phase : PublisherPhase B W) where
  -- The block that makes a bundle of the receipt and the journal.
  unfoldable pub reconciled_bundle : String → Value → Value → Action W ExecutionBundle
  reconciled_bundle request_id current envelope = do
    claim ← lift (bind (item "claim_revision" envelope) text_of)
    claimed ← record_at p phase.read_api_transport request_id claim
    repository_id ← lift (item "repository_id" current)
    issue_id ← lift (item "issue_id" current)
    accepted ← lift (item "accepted_revision" envelope)
    request ← lift (canonical_request p current)
    parameters ← lift (item "parameters" request)
    lift (
        construct (
          object (
            ("request_id", str request_id)
            ∷ ("request_digest", get "request_digest" current)
            ∷ ("operation", get "operation" current)
            ∷ ("repository_id", repository_id)
            ∷ ("repository_full_name", get "repository_full_name" current)
            ∷ ("issue_id", issue_id)
            ∷ ("issue_number", get "issue_number" current)
            ∷ ("execution_id", get "execution_id" current)
            ∷ ("canonical_record", str claimed)
            ∷ ("accepted_revision", accepted)
            ∷ ("claim_revision", str claim)
            ∷ ("parameters", parameters)
            ∷ [])))

  -- An ambiguous request: with a receipt it is finalized, without one it stays as it is.
  unfoldable pub finish_ambiguous :
      String → String → Value → Option Match → Action W ExecutionReceipt
  finish_ambiguous request_id head_sha current none =
      pure (open_receipt request_id head_sha "ambiguous")
  finish_ambiguous request_id head_sha current (some m) = do
    bundle ← guarded (reconciled_bundle request_id current m.envelope) "bundle_revision_mismatch"
    finalize p phase bundle none

  unfoldable pub reconcile_ambiguous :
      String
      → Option String
      → Option String
      → Option String
      → String
      → Value
      → Action W ExecutionReceipt
  reconcile_ambiguous request_id execution_id accepted_revision claim_revision head_sha current = do
    lift (
        require (not (is_null (get "execution_id" current)))
          (handler_error "reconciliation_unclaimed_request"))
    lift (
        require (is_owner execution_id (get "execution_id" current))
          (handler_error "execution_owner_mismatch"))
    repository ← lift (item "repository_full_name" current)
    number ← lift (item "issue_number" current)
    expected_request_id ← lift (item "request_id" current)
    digest ← lift (item "request_digest" current)
    operation ← lift (item "operation" current)
    found ←
        observe_receipt p phase.read_api_transport phase.trusted_receipt_policy
          (issue_of p repository number)
          (record {
            request_id = expected_request_id;
            request_digest = digest;
            operation = operation;
            accepted_revision = accepted_revision;
            claim_revision = claim_revision;
          })
    finish_ambiguous request_id head_sha current found

  -- By the state of the record.
  unfoldable pub reconcile_state :
      Value
      → String
      → Option String
      → Option String
      → Option String
      → String
      → Value
      → Action W ExecutionReceipt
  reconcile_state state request_id execution_id accepted claim head_sha current =
      if is_ended state
      then pure (replayed_receipt request_id head_sha state current)
      else if eq_str state "executing"
      then (lift (
            require (is_owner execution_id (get "execution_id" current))
              (handler_error "execution_owner_mismatch"))
          >>= λ _. pure (open_receipt request_id head_sha "executing"))
      else if eq_str state "ambiguous"
      then reconcile_ambiguous request_id execution_id accepted claim head_sha current
      else raise (handler_error "reconciliation_invalid_state")

  unfoldable pub reconcile_request :
      String → Option String → Option String → Option String → Action W ExecutionReceipt
  reconcile_request request_id execution_id accepted claim = do
    lift (validate_request_id request_id)
    loaded ← phase.coordinator.load_record request_id
    state ← lift (item "state" loaded.1)
    reconcile_state state request_id execution_id accepted claim loaded.0 loaded.1

-- The two phases of the handler.
pub record ActionsRequestHandler (B W : Type 0) : Type 0 where
  pub publisher : PublisherPhase B W
  pub control : ControlPhase W

module _ {B W : Type 0} (p : Platform B) (handler : ActionsRequestHandler B W) where
  -- The Control phase and what follows it.
  unfoldable pub run_granted : ExecutionBundle → Action W ExecutionReceipt
  run_granted bundle = do
    ctrl_res ← execute p handler.control false bundle
    finalize p handler.publisher bundle (some ctrl_res)

  -- By the disposition; a missing receipt or bundle is an `AssertionError`.
  unfoldable pub handle_prepared : ClaimDisposition → PrepareResult → Action W ExecutionReceipt
  handle_prepared ClaimDisposition.terminal_replay prep =
      lift (or_raise prep.receipt other_exception)
  handle_prepared ClaimDisposition.reconciliation_required prep =
      reconcile_request p handler.publisher prep.request_id none none none
  handle_prepared ClaimDisposition.granted prep = do
    bundle ← lift (or_raise prep.bundle other_exception)
    run_granted bundle

  unfoldable pub handle_request : B → String → String → String → Action W ExecutionReceipt
  handle_request event_bytes execution_id accepted_at policy_revision = do
    prep ← prepare p handler.publisher event_bytes execution_id accepted_at policy_revision
    handle_prepared prep.disposition prep
