-- ===== src/Handler/Observe.antt =====
-- The loops over an issue's comments that look for receipts, in `PublisherPhase.finalize`,
-- `PublisherPhase.reconcile_request` and `ControlPhase._existing_receipt` of
-- scripts/actions_request_handler.py.
use zach.Common.{
  ℕ, Bool, true, false, ◌&&◌, Option, none, some, List, [], ◌∷◌, String, ◌⊹◌, has_part,
  if◌then◌else◌,
}
use zach.Python.Value.{Value, str, get, eq_str}
use zach.Action.{Result, ok, err, Action, bind, pure, lift, ◌>>=◌}
use zach.Action.Error.{handler_error}
use zach.Platform.{Platform}
use zach.Journal.Api.{Transport}
use zach.Handler.Bundle.{TrustedReceiptPolicy, ExecutionBundle}
use zach.Handler.Results.{ControlExecutionResult}
use zach.Handler.Comment.{Issue, comment_url, stable_comments}
use zach.Handler.Handoff.{validate_ledger_handoff}
use zach.Handler.Receipt.{ReceiptBinding, parse_receipt_comment, formatted}
use zach.Handler.Checkpoint.{bundle_issue}
use zach.Handler.Trusted.{Match, matching}

abbrev pub bundle_binding : ExecutionBundle → ReceiptBinding
bundle_binding bundle = record {
  request_id = str bundle.request_id;
  request_digest = str bundle.request_digest;
  operation = bundle.operation;
  accepted_revision = some bundle.accepted_revision;
  claim_revision = some bundle.claim_revision;
}

-- A body that names the request and has a receipt's prefix; another one is passed over.
abbrev pub names_request : String → Value → Bool
names_request request_id (str body) =
    has_part ("request_id=" ⊹ request_id) body && has_part "zach-actions:receipt:v1:" body
names_request request_id _ = false

-- The comments that the loops of the Publisher look at.
unfoldable pub candidates : String → List (ℕ × Value) → List (ℕ × Value)
candidates request_id [] = []
candidates request_id ((id, comment) ∷ comments) =
    let rest = candidates request_id comments in
    if names_request request_id (get "body" comment) then (id, comment) ∷ rest else rest

-- The one receipt, or none.
unfoldable pub single_receipt : List Match → Result (Option Match)
single_receipt [] = ok none
single_receipt (m ∷ []) = ok (some m)
single_receipt (m ∷ n ∷ ms) = err (handler_error "duplicate_receipts_found")

module _ {B W : Type 0} (p : Platform B) (api : Transport W) (policy : TrustedReceiptPolicy) where
  -- The two scans of the Publisher and the loop over the comments of the first.
  unfoldable pub observe_receipt : Issue → ReceiptBinding → Action W (Option Match)
  observe_receipt issue binding = do
    comments ← stable_comments api issue
    matches ← lift (
        matching policy issue (λ body. parse_receipt_comment p body binding)
          (candidates (formatted p binding.request_id) comments))
    lift (single_receipt matches)

  -- A receipt of a candidate must hand over this bundle's.
  unfoldable pub checked_receipt : ExecutionBundle → Option Value → Result (Option Value)
  checked_receipt bundle none = ok none
  checked_receipt bundle (some envelope) =
      if eq_str (get "terminal_state" envelope) "candidate_ready"
      then bind (validate_ledger_handoff (get "result" envelope) (some bundle))
          (λ _. ok (some envelope))
      else ok (some envelope)

  unfoldable pub existing_result : ExecutionBundle → Option Match → Option ControlExecutionResult
  existing_result bundle none = none
  existing_result bundle (some m) = some (record {
    request_id = bundle.request_id;
    execution_id = bundle.execution_id;
    terminal_state = some (get "terminal_state" m.envelope);
    terminal_code = some (get "terminal_code" m.envelope);
    terminal_reference = some (comment_url (bundle_issue bundle) m.comment_id);
    envelope = some m.envelope;
    ambiguous = false;
    ambiguous_code = none;
    replayed = true;
  })

  -- `_existing_receipt`
  unfoldable pub existing_receipt : ExecutionBundle → Action W (Option ControlExecutionResult)
  existing_receipt bundle = do
    comments ← stable_comments api (bundle_issue bundle)
    matches ← lift (
        matching policy (bundle_issue bundle)
          (λ body.
            bind (parse_receipt_comment p body (bundle_binding bundle)) (checked_receipt bundle))
          comments)
    found ← lift (single_receipt matches)
    pure (existing_result bundle found)
