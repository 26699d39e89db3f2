-- ===== src/Handler/Quiet.antt =====
-- What the Control phase of scripts/actions_request_handler.py may change of the remote state.
use zach.Common.{ℕ, ◌≡◌, refl, ◌⊎◌, inl, inr, Bool, true, false, Option, none, some, String}
use zach.Python.Value.{Value, eq_str}
use zach.Action.{Result, ok, err, Action, lift}
use zach.Action.Confined.{Confined, Confined-weaken, Confined-bind, Confined-try, Confined-pure}
use zach.Platform.{Platform}
use zach.Journal.Api.{get_method, post_method}
use zach.Journal.Effects.{Any, KeptBy, Any-lift, any_rules}
use zach.CiInspect.Policy.{CiInspectionPolicy}
use zach.CiInspect.Inspect.{inspect_ci}
use zach.CiInspect.ReadOnly.{inspect_ci-Confined}
use zach.Dispatch.Policy.{RecipeDispatchPolicy}
use zach.Dispatch.Recipe.{reconcile_recipe}
use zach.Dispatch.Once.{reconcile_recipe-Confined}
use zach.Handler.Bundle.{ExecutionBundle}
use zach.Handler.Results.{ControlExecutionResult}
use zach.Handler.Comment.{Issue, comments_path, validate_comment_identity}
use zach.Handler.Checkpoint.{bundle_issue}
use zach.Handler.Effect.{
  ControlPhase, Outcome, Effect, identity_failure, inspect_effect, recipe_effect, ledger_effect,
  candidate_effect, perform_effect,
}
use zach.Handler.Effect.{performed, stopped}
use zach.Handler.Control.{
  or_replay, with_identity, requested, or_ambiguous, read_back, publish_receipt, unless_replayed,
  publish_outcome, finish_effect, execute,
}
use zach.Handler.Reading.{existing_receipt-Confined}
use zach.Handler.Observe.{existing_receipt}

module _ {B W : Type 0} (p : Platform B) (phase : ControlPhase W) (P : W → Type 0)
    (gets : KeptBy P phase.api_transport get_method)
    (comments : (issue : Issue) (body : Value)
      → Confined P Any (phase.api_transport post_method (comments_path issue) body))
    (candidates : (candidate : ExecutionBundle → Action W Value) (bundle : ExecutionBundle)
      → phase.ledger_candidate ≡ some candidate
      → Confined P Any (candidate bundle)) where
  inspected :
      (policy : CiInspectionPolicy) (v : Value)
      → Confined P Any (inspect_ci phase.api_transport policy p v)
  inspected policy v =
      Confined-weaken (λ e h. tt) (inspect_ci-Confined P phase.api_transport gets policy p v)

  reconciled :
      (policy : RecipeDispatchPolicy) (v : Value) (request_id accepted_at : String)
      → Confined P Any (reconcile_recipe p phase.api_transport policy v request_id accepted_at)
  reconciled policy v request_id accepted_at =
      reconcile_recipe-Confined p phase.api_transport policy P gets v request_id accepted_at

  inspect_effect-Confined :
      (bundle : ExecutionBundle) → Confined P Any (inspect_effect p phase bundle)
  unfolding inspect_effect
  inspect_effect-Confined bundle = search (any_rules, inspected) depth 10

  reconcile_effect-Confined :
      (bundle : ExecutionBundle) (v : Value) → Confined P Any (recipe_effect p phase true bundle v)
  unfolding recipe_effect
  reconcile_effect-Confined bundle v = search (any_rules, reconciled) depth 10

  ledger_effect-Confined :
      (candidate : ExecutionBundle → Action W Value) (bundle : ExecutionBundle)
      → phase.ledger_candidate ≡ some candidate
      → Confined P Any (ledger_effect p phase candidate bundle)
  unfolding ledger_effect
  ledger_effect-Confined candidate bundle e =
      Confined-try _ _
        (Confined-bind _ _ (candidates candidate bundle e)
          λ result. Confined-bind _ _ (Any-lift _) λ _. Confined-pure _)
        λ x. Confined-pure _

  candidate_effect-Confined :
      (o : Option (ExecutionBundle → Action W Value)) (bundle : ExecutionBundle)
      → phase.ledger_candidate ≡ o
      → Confined P Any (candidate_effect p phase o bundle)
  unfolding candidate_effect
  candidate_effect-Confined none bundle e = Any-lift _
  candidate_effect-Confined (some candidate) bundle e = ledger_effect-Confined candidate bundle e

  -- The recipe is dispatched only by a phase that is not to reconcile.
  recipe_effect-Confined :
      (r : Bool) (bundle : ExecutionBundle) (v : Value)
      → (r ≡ true) ⊎ (eq_str bundle.operation "workspace.recipe.dispatch" ≡ false)
      → eq_str bundle.operation "workspace.recipe.dispatch" ≡ true
      → Confined P Any (recipe_effect p phase r bundle v)
  recipe_effect-Confined true bundle v q h = reconcile_effect-Confined bundle v
  recipe_effect-Confined false bundle v (inl e) h = absurd (cc)
  recipe_effect-Confined false bundle v (inr e) h = absurd (cc)

  perform_effect-Confined :
      (r : Bool) (bundle : ExecutionBundle) (v : Value)
      → (r ≡ true) ⊎ (eq_str bundle.operation "workspace.recipe.dispatch" ≡ false)
      → Confined P Any (perform_effect p phase r bundle v)
  unfolding perform_effect
  perform_effect-Confined r bundle v quiet =
      let candidate : Confined P Any (candidate_effect p phase phase.ledger_candidate bundle) =
        candidate_effect-Confined phase.ledger_candidate bundle refl in
      let recipe : eq_str bundle.operation "workspace.recipe.dispatch" ≡ true
          → Confined P Any (recipe_effect p phase r bundle v) =
        λ h. recipe_effect-Confined r bundle v quiet h in
      search (any_rules, inspect_effect-Confined, recipe, candidate) depth 12

  with_identity-Confined :
      (bundle : ExecutionBundle) (body : String) (comment : Value)
      (next : ℕ → Action W ControlExecutionResult)
      → ((id : ℕ) → Confined P Any (next id))
      → Confined P Any (with_identity p phase bundle body comment next)
  unfolding with_identity
  with_identity-Confined bundle body comment next h = decided (
      validate_comment_identity comment phase.trusted_receipt_policy (bundle_issue bundle)
        (some body))
    where
      decided :
          (r : Result ℕ)
          → Confined P Any (elim r [ ok id ↦ next id | err e ↦ lift (identity_failure bundle e) ])
      decided (ok id) = h id
      decided (err e) = Any-lift _

  requested-Confined :
      (m : Action W Value) → Confined P Any m → Confined P Any (requested p phase m)
  unfolding requested
  requested-Confined m h =
      Confined-try _ _ (Confined-bind _ _ h λ v. Confined-pure _) λ e. Confined-pure _

  or_ambiguous-Confined :
      (bundle : ExecutionBundle) (o : Option Value) (next : Value → Action W ControlExecutionResult)
      → ((v : Value) → Confined P Any (next v))
      → Confined P Any (or_ambiguous p phase bundle o next)
  unfolding or_ambiguous
  or_ambiguous-Confined bundle none next h = Confined-pure _
  or_ambiguous-Confined bundle (some v) next h = h v

  read_back-Confined :
      (bundle : ExecutionBundle) (outcome : Outcome) (envelope : Value) (body : String) (id : ℕ)
      → Confined P Any (read_back p phase bundle outcome envelope body id)
  unfolding read_back
  read_back-Confined bundle outcome envelope body id =
      Confined-bind _ _ (requested-Confined _ (gets _ _)) λ answer.
        or_ambiguous-Confined bundle answer _
          λ v. with_identity-Confined bundle body v _ λ id'. search (any_rules) depth 6

  publish_receipt-Confined :
      (bundle : ExecutionBundle) (outcome : Outcome) (envelope : Value) (body : String)
      → Confined P Any (publish_receipt p phase bundle outcome envelope body)
  unfolding publish_receipt
  publish_receipt-Confined bundle outcome envelope body =
      Confined-bind _ _ (requested-Confined _ (comments _ _)) λ answer.
        or_ambiguous-Confined bundle answer _ λ v.
          with_identity-Confined bundle body v _
            λ id. read_back-Confined bundle outcome envelope body id

  or_replay-Confined :
      (next : Action W ControlExecutionResult) (o : Option ControlExecutionResult)
      → Confined P Any next
      → Confined P Any (or_replay p phase next o)
  unfolding or_replay
  or_replay-Confined next none h = h
  or_replay-Confined next (some result) h = Confined-pure _

  existing :
      (bundle : ExecutionBundle)
      → Confined P Any (existing_receipt p phase.api_transport phase.trusted_receipt_policy bundle)
  existing bundle = existing_receipt-Confined p phase.api_transport P gets _ bundle

  unless_replayed-Confined :
      (observes : Bool) (bundle : ExecutionBundle) (next : Action W ControlExecutionResult)
      → Confined P Any next
      → Confined P Any (unless_replayed p phase observes bundle next)
  unfolding unless_replayed
  unless_replayed-Confined true bundle next h =
      Confined-bind _ _ (existing bundle) λ o. or_replay-Confined next o h
  unless_replayed-Confined false bundle next h = h

  finish_effect-Confined :
      (r : Bool) (bundle : ExecutionBundle) (effect : Effect)
      → Confined P Any (finish_effect p phase r bundle effect)
  unfolding finish_effect publish_outcome
  finish_effect-Confined r bundle (stopped code) = Confined-pure _
  finish_effect-Confined r bundle (performed outcome) = Confined-bind _ _ (Any-lift _) λ body.
      unless_replayed-Confined _ bundle _
        (Confined-bind _ _ (Any-lift _) λ _. publish_receipt-Confined bundle outcome _ body)

  -- If it is to reconcile, or if the operation is no dispatch of a recipe, the Control phase keeps every
  -- property of the state that GET requests, new comments on issues and the injected builder of the
  -- ledger's candidates, if there is one, keep: it does nothing else itself.
  pub execute-Confined :
      (reconcile_recipe_only : Bool) (bundle : ExecutionBundle)
      → (reconcile_recipe_only ≡ true)
        ⊎ (eq_str bundle.operation "workspace.recipe.dispatch" ≡ false)
      → Confined P Any (execute p phase reconcile_recipe_only bundle)
  unfolding execute
  execute-Confined reconcile_recipe_only bundle quiet = Confined-bind _ _ (Any-lift _) λ frozen.
      unless_replayed-Confined _ bundle _ (
        Confined-bind _ _ (perform_effect-Confined reconcile_recipe_only bundle frozen quiet)
          λ effect. finish_effect-Confined reconcile_recipe_only bundle effect)
