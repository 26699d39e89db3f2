-- ===== src/Handler/Finalize.antt =====
-- `PublisherPhase.finalize`, `reconcile_request` and `_safe_mark_ambiguous` of
-- scripts/actions_request_handler.py.
use zach.Common.{
  ℕ, Bool, false, not, ◌&&◌, ◌||◌, Option, none, some, List, [], ◌∷◌, String, ◌==◌, str_eq,
  if◌then◌else◌,
}
use zach.Python.Value.{Value, bool, str, get, eq_str}
use zach.Python.Plain.{item, has_exactly}
use zach.Action.{
  Result, ok, err, Action, bind, require, or_raise, pure, lift, raise, try, ◌>>=◌, ◌>>◌,
}
use zach.Action.Error.{Exc, coordinator_error, handler_error}
use zach.Action.Codes.{coordinator_code}
use zach.Platform.{Platform}
use zach.Coordinator.Results.{JournalMutationResult}
use zach.Handler.Bundle.{TrustedReceiptPolicy, ExecutionBundle, positive, text_of, same_value}
use zach.Handler.Results.{ExecutionReceipt, ControlExecutionResult}
use zach.Handler.Comment.{comment_url}
use zach.Handler.Marker.{PublisherKind}
use zach.Handler.Handoff.{safe_ledger_code, validate_ledger_handoff, validate_ledger_publication}
use zach.Handler.Publisher.{format_publisher_comment}
use zach.Handler.Trusted.{Match}
use zach.Handler.Binding.{guarded, verify_bundle_journal}
use zach.Handler.Phase.{PublisherPhase}
use zach.Handler.Checkpoint.{
  bundle_issue, publication_value, unproved_comment, identity_required, is_checkpoint, matches_of,
  ensure_publisher_comment, load_ledger_publication_checkpoint,
}
use zach.Handler.Observe.{bundle_binding, observe_receipt}
use zach.Handler.Envelope.{is_ended, replayed_receipt}

-- The values with which a request is to end.
pub record Ending : Type 0 where
  pub terminal_state : String
  pub terminal_code : String
  pub reference : String
  pub envelope : Value
  pub replayed : Bool

abbrev pub no_handoff : Exc
no_handoff = handler_error "invalid_ledger_handoff"

abbrev pub bad_result : Exc
bad_result = handler_error "ledger_publication_result_invalid"

abbrev pub result_keys : List String
result_keys = "publication" ∷ "checkpoint_comment_id" ∷ "replayed" ∷ []

abbrev pub flag_of : Value → Option Bool
flag_of (bool b) = some b
flag_of _ = none

-- The publication's artifact is the one that was handed over.
unfoldable pub is_handed_over : Value → Value → Bool
is_handed_over reference handoff =
    same_value (get "run_id" reference) (get "producer_run_id" handoff)
    && same_value (get "run_attempt" reference) (get "producer_run_attempt" handoff)
    && same_value (get "content_sha256" reference) (get "content_sha256" handoff)

-- The receipt of a request that ends now.
abbrev pub ended_receipt :
    ExecutionBundle → Ending → Bool → JournalMutationResult → ExecutionReceipt
ended_receipt bundle ending reconciled mutation = record {
  request_id = bundle.request_id;
  durable_revision = mutation.durable_revision;
  terminal_state = str ending.terminal_state;
  terminal_code = str ending.terminal_code;
  terminal_reference = str ending.reference;
  envelope = ending.envelope;
  replayed = ending.replayed;
  reconciled = reconciled;
}

-- `except CoordinatorError as e: raise ActionsHandlerError(e.code)`
abbrev pub coordinator_failure : Exc → Exc
coordinator_failure (coordinator_error c) = handler_error (coordinator_code c)
coordinator_failure e = e

-- The one comment, which is the one that was ensured.
unfoldable pub is_published_once : ℕ → String → List Match → Bool
is_published_once published_id body (m ∷ []) =
    m.comment_id == published_id && eq_str (get "body" m.comment) body
is_published_once published_id body _ = false

module _ {B W : Type 0} (p : Platform B) (phase : PublisherPhase B W) where
  -- `_safe_mark_ambiguous`
  unfoldable pub safe_mark_ambiguous : ExecutionBundle → Action W (Unit {0})
  safe_mark_ambiguous bundle =
      try (phase.coordinator.mark_ambiguous bundle.request_id bundle.execution_id >>= λ _. pure tt)
        λ e. pure tt

  -- `if record["state"] == "executing": self._safe_mark_ambiguous(...)`, then the exception
  unfoldable pub left_ambiguous : {A : Type 0} → ExecutionBundle → Value → Exc → Action W A
  left_ambiguous bundle state e =
      (if eq_str state "executing" then safe_mark_ambiguous bundle else pure tt) >>= λ _. raise e

  -- The result of the ledger's publisher, tested: its publication, its comment and whether it is a replay.
  unfoldable pub checked_ledger_result : ExecutionBundle → Value → Value → Result (Value × ℕ × Bool)
  checked_ledger_result bundle handoff result =
      bind (require (has_exactly result_keys result) bad_result) λ _.
        bind (validate_ledger_publication p bundle (get "publication" result)) λ _.
          bind (or_raise_number (get "checkpoint_comment_id" result)) λ comment_id.
            bind (or_raise (flag_of (get "replayed" result)) bad_result) λ replayed.
              bind
                (require
                  (is_handed_over (get "artifact_reference" (get "publication" result)) handoff)
                  bad_result)
                λ _. ok (get "publication" result, comment_id, replayed)
    where
      or_raise_number : Value → Result ℕ
      or_raise_number v = elim (positive v) [ ok n ↦ ok n | err e ↦ err bad_result ]

  unfoldable pub published_ending : ExecutionBundle → Value → Value → ℕ → Bool → Ending
  published_ending bundle publication envelope published_id replayed = record {
    terminal_state = "succeeded";
    terminal_code =
        if same_value (get "commit_sha" publication) (get "base_sha" publication)
        then "ledger_no_change"
        else "ledger_published";
    reference = comment_url (bundle_issue bundle) published_id;
    envelope = envelope;
    replayed = replayed;
  }

  -- The block that publishes a candidate of the ledger.
  unfoldable pub publish_ledger :
      TrustedReceiptPolicy
      → (ExecutionBundle → Value → Action W Value)
      → ExecutionBundle
      → Value
      → Action W Ending
  publish_ledger policy publisher bundle handoff = do
    result ← publisher bundle handoff
    checked ← lift (checked_ledger_result bundle handoff result)
    let publication = checked.0
    intent ←
        load_ledger_publication_checkpoint p phase.read_api_transport phase.trusted_publisher_policy
          bundle
    lift (require (is_checkpoint checked.1 publication intent) bad_result)
    let envelope = publication_value PublisherKind.published bundle publication
    published_id ←
        ensure_publisher_comment p phase.read_api_transport policy PublisherKind.published envelope
    matches ← matches_of p phase.read_api_transport policy PublisherKind.published (record {
      issue = bundle_issue bundle;
      execution_id = bundle.execution_id;
      request_id = bundle.request_id;
    })
    body ← lift (format_publisher_comment p PublisherKind.published envelope)
    lift (require (is_published_once published_id body matches) unproved_comment)
    pure (published_ending bundle publication envelope published_id checked.2)

  -- A candidate that the receipt hands over.
  unfoldable pub ledger_ending : ExecutionBundle → Value → Value → Action W Ending
  ledger_ending bundle state envelope = do
    lift (validate_ledger_handoff (get "result" envelope) (some bundle))
    publisher ←
        lift (or_raise phase.ledger_publisher (handler_error "ledger_publication_unavailable"))
    policy ← lift (or_raise phase.trusted_publisher_policy identity_required)
    try (publish_ledger policy publisher bundle (get "result" envelope)) λ e.
        left_ambiguous bundle state (handler_error (safe_ledger_code e "ledger_publication_failed"))

  -- The values of the receipt itself; a parsed receipt has them as texts.
  unfoldable pub receipt_ending : ExecutionBundle → Match → Result Ending
  receipt_ending bundle m = bind (text_of (get "terminal_state" m.envelope)) λ state.
      bind (text_of (get "terminal_code" m.envelope)) λ code. ok (record {
        terminal_state = state;
        terminal_code = code;
        reference = comment_url (bundle_issue bundle) m.comment_id;
        envelope = m.envelope;
        replayed = false;
      })

  -- The branches on the ledger's states.
  unfoldable pub ending_of : ExecutionBundle → Value → Match → Action W Ending
  ending_of bundle state m =
      if not (eq_str bundle.operation "governance.ledger")
      then lift (receipt_ending bundle m)
      else if eq_str (get "terminal_state" m.envelope) "succeeded"
      then raise no_handoff
      else if eq_str (get "terminal_state" m.envelope) "candidate_ready"
      then ledger_ending bundle state m.envelope
      else lift (receipt_ending bundle m)

  -- The fourth step: the journal's record ends.
  unfoldable pub terminalize : ExecutionBundle → Value → Ending → Action W ExecutionReceipt
  terminalize bundle state ending =
      if eq_str state "executing"
      then (guarded
            (phase.coordinator.complete bundle.request_id bundle.execution_id ending.terminal_state
              ending.terminal_code (some ending.reference))
            "journal_completion_failed"
          >>= λ mutation. pure (ended_receipt bundle ending false mutation))
      else (try
            (phase.coordinator.reconcile bundle.request_id bundle.execution_id (record {
              terminal_state = ending.terminal_state;
              terminal_code = ending.terminal_code;
              terminal_reference = some ending.reference;
            }))
            (λ e. raise (coordinator_failure e))
          >>= λ mutation. pure (ended_receipt bundle ending (eq_str state "ambiguous") mutation))

  -- What `finalize` makes of the receipts that it has found.
  unfoldable pub finish_receipt : ExecutionBundle → Value → Option Match → Action W ExecutionReceipt
  finish_receipt bundle state none =
      left_ambiguous bundle state (handler_error "comment_publication_ambiguous")
  finish_receipt bundle state (some m) = do
    ending ← ending_of bundle state m
    terminalize bundle state ending

  -- `control_result is not None and control_result.ambiguous`, with `ambiguous_code` or its default
  abbrev pub reported : Option ControlExecutionResult → Option String
  reported none = none
  reported (some result) =
      if result.ambiguous then some (code_or_default result.ambiguous_code) else none
    where
      code_or_default : Option String → String
      code_or_default none = "comment_publication_ambiguous"
      code_or_default (some code) = if str_eq code "" then "comment_publication_ambiguous" else code

  -- A request that is still open, in its state.
  unfoldable pub finalize_open :
      ExecutionBundle → Option ControlExecutionResult → Value → Value → Action W ExecutionReceipt
  finalize_open bundle control_result state current = do
    lift (
        require (eq_str state "executing" || eq_str state "ambiguous")
          (handler_error "reconciliation_invalid_state"))
    lift (
        require (eq_str (get "execution_id" current) bundle.execution_id)
          (handler_error "execution_owner_mismatch"))
    let observed = do
      found ←
          observe_receipt p phase.read_api_transport phase.trusted_receipt_policy
            (bundle_issue bundle) (bundle_binding bundle)
      finish_receipt bundle state found
    elim (reported control_result) [
      | some code ↦ left_ambiguous bundle state (handler_error code)
      | none ↦ observed
    ]

  unfoldable pub finalize :
      ExecutionBundle → Option ControlExecutionResult → Action W ExecutionReceipt
  finalize bundle control_result = do
    loaded ← phase.coordinator.load_record bundle.request_id
    verify_bundle_journal p phase.read_api_transport bundle loaded.0 loaded.1
    state ← lift (item "state" loaded.1)
    if is_ended state
        then pure (replayed_receipt bundle.request_id loaded.0 state loaded.1)
        else finalize_open bundle control_result state loaded.1
