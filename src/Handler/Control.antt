-- ===== src/Handler/Control.antt =====
-- `ControlPhase.execute` of scripts/actions_request_handler.py.
use zach.Common.{ℕ, Bool, false, ◌||◌, Option, none, some, String, leb, ◌==◌, if◌then◌else◌}
use zach.Python.Value.{Value, null, str, eq_str}
use zach.Action.{Result, ok, err, Action, require, recode, pure, lift, try, ◌>>=◌}
use zach.Action.Error.{handler_error}
use zach.Platform.{Platform}
use zach.Journal.Api.{get_method, post_method}
use zach.Handler.Bundle.{
  ExecutionBundle, from_dict, from_json, validate_execution_bundle, invalid_bundle,
}
use zach.Handler.Results.{ControlExecutionResult}
use zach.Handler.Comment.{comments_path, comment_path, comment_url, validate_comment_identity}
use zach.Handler.Receipt.{max_comment_body_bytes, format_receipt_comment}
use zach.Handler.Checkpoint.{bundle_issue, comment_value}
use zach.Handler.Observe.{existing_receipt}
use zach.Handler.Effect.{
  ControlPhase, Effect, Outcome, ambiguous_result, identity_failure, perform_effect,
  receipt_envelope, stopped, performed,
}

-- What `execute` may be given.
pub data Given : Type 0 where
  as_bundle : ExecutionBundle → Given
  as_dict : Value → Given
  as_json : String → Given
  as_other : Given

module _ {B W : Type 0} (p : Platform B) (phase : ControlPhase W) where
  -- The identity of a comment that was answered, as a result of the phase where it is refused.
  unfoldable pub with_identity :
      ExecutionBundle
      → String
      → Value
      → (ℕ → Action W ControlExecutionResult)
      → Action W ControlExecutionResult
  with_identity bundle body comment next =
      elim (validate_comment_identity comment phase.trusted_receipt_policy (bundle_issue bundle)
        (some body)) [ ok id ↦ next id | err e ↦ lift (identity_failure bundle e) ]

  unfoldable pub published_result :
      ExecutionBundle → Outcome → Value → ℕ → Result ControlExecutionResult
  published_result bundle outcome envelope comment_id =
      let reference = comment_url (bundle_issue bundle) comment_id in
      if leb (p.size (p.encode reference)) 512
      then ok (record {
        request_id = bundle.request_id;
        execution_id = bundle.execution_id;
        terminal_state = some (str outcome.terminal_state);
        terminal_code = some outcome.terminal_code;
        terminal_reference = some reference;
        envelope = some envelope;
        ambiguous = false;
        ambiguous_code = none;
        replayed = false;
      })
      else ok (ambiguous_result bundle "terminal_reference_too_large")

  -- A request whose failure leaves the publication open.
  unfoldable pub requested : Action W Value → Action W (Option Value)
  requested m = try (m >>= λ v. pure (some v)) λ e. pure none

  unfoldable pub or_ambiguous :
      ExecutionBundle
      → Option Value
      → (Value → Action W ControlExecutionResult)
      → Action W ControlExecutionResult
  or_ambiguous bundle none next = pure (ambiguous_result bundle "comment_publication_ambiguous")
  or_ambiguous bundle (some v) next = next v

  unfoldable pub read_back :
      ExecutionBundle → Outcome → Value → String → ℕ → Action W ControlExecutionResult
  read_back bundle outcome envelope body comment_id = do
    answer ←
        requested
          (phase.api_transport get_method (comment_path (bundle_issue bundle) comment_id) null)
    or_ambiguous bundle answer λ get_res. with_identity bundle body get_res λ readback_id.
        if readback_id == comment_id
        then lift (published_result bundle outcome envelope comment_id)
        else pure (ambiguous_result bundle "comment_readback_identity_mismatch")

  -- The POST of the receipt and its readback.
  unfoldable pub publish_receipt :
      ExecutionBundle → Outcome → Value → String → Action W ControlExecutionResult
  publish_receipt bundle outcome envelope body = do
    answer ←
        requested (
          phase.api_transport post_method (comments_path (bundle_issue bundle))
            (comment_value body))
    or_ambiguous bundle answer λ post_res.
        with_identity bundle body post_res
          λ comment_id. read_back bundle outcome envelope body comment_id

  -- A receipt that is there ends the phase.
  unfoldable pub or_replay :
      Action W ControlExecutionResult
      → Option ControlExecutionResult
      → Action W ControlExecutionResult
  or_replay next none = next
  or_replay next (some result) = pure result

  -- `if reconcile_recipe_only or operation == "governance.ledger":` with a receipt that is there
  unfoldable pub unless_replayed :
      Bool → ExecutionBundle → Action W ControlExecutionResult → Action W ControlExecutionResult
  unless_replayed observes bundle next =
      if observes
      then (existing_receipt p phase.api_transport phase.trusted_receipt_policy bundle
          >>= or_replay next)
      else next

  abbrev pub observes_first : Bool → ExecutionBundle → Bool
  observes_first reconcile_recipe_only bundle =
      reconcile_recipe_only || eq_str bundle.operation "governance.ledger"

  unfoldable pub publish_outcome :
      Bool → ExecutionBundle → Outcome → Action W ControlExecutionResult
  publish_outcome reconcile_recipe_only bundle outcome = do
    body ← lift (format_receipt_comment p (receipt_envelope bundle outcome))
    unless_replayed (observes_first reconcile_recipe_only bundle) bundle (
        lift (
          require (leb (p.size (p.encode body)) max_comment_body_bytes)
            (handler_error "comment_body_too_large"))
        >>= λ _. publish_receipt bundle outcome (receipt_envelope bundle outcome) body)

  unfoldable pub finish_effect : Bool → ExecutionBundle → Effect → Action W ControlExecutionResult
  finish_effect reconcile_recipe_only bundle (stopped code) = pure (ambiguous_result bundle code)
  finish_effect reconcile_recipe_only bundle (performed outcome) =
      publish_outcome reconcile_recipe_only bundle outcome

  unfoldable pub execute : Bool → ExecutionBundle → Action W ControlExecutionResult
  execute reconcile_recipe_only bundle = do
    frozen_record ← lift (validate_execution_bundle p bundle)
    let effect = do
      performed' ← perform_effect p phase reconcile_recipe_only bundle frozen_record
      finish_effect reconcile_recipe_only bundle performed'
    unless_replayed (observes_first reconcile_recipe_only bundle) bundle effect

  -- The argument of `execute` as a bundle.
  unfoldable pub given_bundle : Given → Result ExecutionBundle
  given_bundle (as_bundle bundle) = ok bundle
  given_bundle (as_dict data') = recode invalid_bundle (from_dict data')
  given_bundle (as_json s) = recode invalid_bundle (from_json p s)
  given_bundle as_other = err invalid_bundle

  unfoldable pub execute_given : Bool → Given → Action W ControlExecutionResult
  execute_given reconcile_recipe_only given =
      lift (given_bundle given) >>= λ bundle. execute reconcile_recipe_only bundle
