-- ===== src/Handler/Phase.antt =====
-- The coordinator as `PublisherPhase` of scripts/actions_request_handler.py uses it, and the fields of
-- the phase.
use zach.Common.{Option, String}
use zach.Python.Value.{Value}
use zach.Action.{Action, raise, try}
use zach.Action.Error.{Exc, coordinator_error, ambiguous_publication, api_error, handler_error}
use zach.Action.Codes.{coordinator_code}
use zach.Platform.{Platform}
use zach.Journal.Api.{Transport}
use zach.Coordinator.Policy.{TrustedIssuePolicy}
use zach.Coordinator.Cli.{Host}
use zach.Coordinator.Results.{
  AcceptanceResult, ClaimResult, JournalMutationResult, TrustedReconciliationObservation,
}
use zach.Coordinator.Store.{load_record}
use zach.Coordinator.Accept.{accept}
use zach.Coordinator.Claim.{claim}
use zach.Coordinator.Owner.{complete, mark_ambiguous, reconcile}
use zach.Handler.Bundle.{TrustedReceiptPolicy, ExecutionBundle}

-- The operations of `ActionsJournalCoordinator`.
pub record Coordinator (B W : Type 0) : Type 0 where
  pub accept : B → TrustedIssuePolicy → String → String → Action W AcceptanceResult
  pub claim : String → String → Action W ClaimResult
  pub complete : String → String → String → String → Option String → Action W JournalMutationResult
  pub mark_ambiguous : String → String → Action W JournalMutationResult
  pub reconcile :
      String → String → TrustedReconciliationObservation → Action W JournalMutationResult
  pub load_record : String → Action W (String × Value)

-- `ActionsJournalCoordinator(request, cli_executable)`
unfoldable pub coordinator_of :
    {B W : Type 0} → Platform B → Transport W → Host B W → String → Coordinator B W
coordinator_of p request host cli = record {
  accept = accept p request host cli;
  claim = claim p request host cli;
  complete = complete p request host cli;
  mark_ambiguous = mark_ambiguous p request host cli;
  reconcile = reconcile p request host cli;
  load_record = load_record p request;
}

-- The fields that `__init__` sets. The publisher of the ledger is called with the phase itself, the
-- bundle and the hand-over; the phase of a call is the one whose fields these are.
pub record PublisherPhase (B W : Type 0) : Type 0 where
  pub coordinator : Coordinator B W
  pub trusted_issue_policy : TrustedIssuePolicy
  pub trusted_receipt_policy : TrustedReceiptPolicy
  pub trusted_publisher_policy : Option TrustedReceiptPolicy
  pub ledger_publisher : Option (ExecutionBundle → Value → Action W Value)
  pub read_api_transport : Transport W

-- `except (CoordinatorError, AmbiguousPublication, ApiError) as e: ... getattr(e, "code", fallback)`
abbrev pub phase_error : String → Exc → Exc
phase_error fallback (coordinator_error c) = handler_error (coordinator_code c)
phase_error fallback (ambiguous_publication a b c) = handler_error fallback
phase_error fallback (api_error status) = handler_error fallback
phase_error fallback e = e

unfoldable pub with_code : {W A : Type 0} → Action W A → String → Action W A
with_code m fallback = try m λ e. raise (phase_error fallback e)
