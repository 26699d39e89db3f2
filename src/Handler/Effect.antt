-- ===== src/Handler/Effect.antt =====
-- The effects of the Control phase of scripts/actions_request_handler.py.
use zach.Common.{Bool, true, false, ◌||◌, Option, none, some, [], ◌∷◌, String, if◌then◌else◌}
use zach.Python.Value.{Value, bool, int, str, dict, has_key, get, eq_str}
use zach.Python.Plain.{object}
use zach.Action.{Result, ok, err, Action, or_raise, pure, lift, try, ◌>>=◌}
use zach.Action.Error.{Exc, ci_inspect_error, recipe_dispatch_error, handler_error, other_exception}
use zach.Action.Codes.{ci_code, recipe_code}
use zach.Platform.{Platform}
use zach.Journal.Api.{Transport}
use zach.CiInspect.Policy.{CiInspectionPolicy}
use zach.CiInspect.Inspect.{inspect_ci}
use zach.Dispatch.Policy.{RecipeDispatchPolicy}
use zach.Dispatch.Recipe.{dispatch_recipe, reconcile_recipe}
use zach.Handler.Bundle.{TrustedReceiptPolicy, ExecutionBundle}
use zach.Handler.Results.{ControlExecutionResult}
use zach.Handler.Handoff.{safe_ledger_code, validate_ledger_handoff}
use zach.Handler.Publisher.{is_hashable}

-- The fields that `__init__` sets.
pub record ControlPhase (W : Type 0) : Type 0 where
  pub api_transport : Transport W
  pub trusted_receipt_policy : TrustedReceiptPolicy
  pub ci_policy : Option CiInspectionPolicy
  pub recipe_policy : Option RecipeDispatchPolicy
  pub ledger_candidate : Option (ExecutionBundle → Action W Value)

-- The state, the code and the payload of an effect.
pub record Outcome : Type 0 where
  pub terminal_state : String
  pub terminal_code : Value
  pub result : Value

-- Either an outcome to publish, or the code of an ambiguous result that ends the phase.
pub data Effect : Type 0 where
  performed : Outcome → Effect
  stopped : String → Effect

abbrev pub performing : String → Value → Value → Effect
performing state code result =
    performed (record { terminal_state = state; terminal_code = code; result = result })

-- `ControlExecutionResult(..., ambiguous=True, ambiguous_code=code)`
abbrev pub ambiguous_result : ExecutionBundle → String → ControlExecutionResult
ambiguous_result bundle code = record {
  request_id = bundle.request_id;
  execution_id = bundle.execution_id;
  terminal_state = none;
  terminal_code = none;
  terminal_reference = none;
  envelope = none;
  ambiguous = true;
  ambiguous_code = some code;
  replayed = false;
}

-- `{"error": code, "retryable": retryable}`
abbrev pub failure : String → Bool → Value
failure code retryable = object (("error", str code) ∷ ("retryable", bool retryable) ∷ [])

-- `v.get(key, default)`
abbrev pub get_default : String → Value → Value → Value
get_default key default (dict fs) = if has_key key fs then get key (dict fs) else default
get_default key default v = default

abbrev pub ci_failure : Exc → Result Effect
ci_failure (ci_inspect_error code retryable) =
    ok (performing "rejected" (str (ci_code code)) (failure (ci_code code) retryable))
ci_failure e = err e

abbrev pub recipe_failure : Bool → ExecutionBundle → Exc → Result Effect
recipe_failure reconcile_recipe_only bundle (recipe_dispatch_error code retryable ambiguous) =
    if ambiguous || reconcile_recipe_only
    then ok (stopped (recipe_code code))
    else ok (performing "rejected" (str (recipe_code code)) (failure (recipe_code code) retryable))
recipe_failure reconcile_recipe_only bundle e = err e

abbrev pub ledger_failure : Exc → Effect
ledger_failure e =
    let code = safe_ledger_code e "ledger_candidate_failed" in
    performing "rejected" (str code) (object (("error", str code) ∷ []))

-- The two last branches, which agree.
abbrev pub unsupported : Value → Effect
unsupported operation =
    performing "rejected" (str "unsupported_operation")
      (object (("error", str "unsupported_operation") ∷ ("operation", operation) ∷ []))

-- The dispatchers raise the same of any acceptance time that is no timestamp.
abbrev pub acceptance_time : Value → String
acceptance_time (str s) = s
acceptance_time _ = ""

-- A test of membership in a set comes first, which a list or a dictionary does not pass.
unfoldable pub unsupported_effect : Value → Result Effect
unsupported_effect operation =
    if is_hashable operation then ok (unsupported operation) else err other_exception

-- The envelope of the receipt.
unfoldable pub receipt_envelope : ExecutionBundle → Outcome → Value
receipt_envelope bundle outcome = object (
    ("schema_version", int 1)
    ∷ ("kind", str "actions.request.receipt")
    ∷ ("request_id", str bundle.request_id)
    ∷ ("request_digest", str bundle.request_digest)
    ∷ ("operation", bundle.operation)
    ∷ ("accepted_revision", str bundle.accepted_revision)
    ∷ ("claim_revision", str bundle.claim_revision)
    ∷ ("terminal_state", str outcome.terminal_state)
    ∷ ("terminal_code", outcome.terminal_code)
    ∷ ("result", outcome.result)
    ∷ [])

-- `except ActionsHandlerError as e: return ControlExecutionResult(... e.code)`
abbrev pub identity_failure : ExecutionBundle → Exc → Result ControlExecutionResult
identity_failure bundle (handler_error code) = ok (ambiguous_result bundle code)
identity_failure bundle e = err e

module _ {B W : Type 0} (p : Platform B) (phase : ControlPhase W) where
  unfoldable pub inspect_effect : ExecutionBundle → Action W Effect
  inspect_effect bundle = do
    policy ← lift (or_raise phase.ci_policy (handler_error "ci_policy_missing"))
    try
        (inspect_ci phase.api_transport policy p (dict bundle.parameters) >>= λ ci_result.
          pure (performing "succeeded" (get_default "result" (str "found") ci_result) ci_result))
        λ e. lift (ci_failure e)

  abbrev pub dispatcher : Bool → RecipeDispatchPolicy → Value → String → String → Action W Value
  dispatcher true policy = reconcile_recipe p phase.api_transport policy
  dispatcher false policy = dispatch_recipe p phase.api_transport policy

  unfoldable pub recipe_effect : Bool → ExecutionBundle → Value → Action W Effect
  recipe_effect reconcile_recipe_only bundle frozen_record = do
    policy ← lift (or_raise phase.recipe_policy (handler_error "recipe_policy_missing"))
    try
        (dispatcher reconcile_recipe_only policy (dict bundle.parameters) bundle.request_id
            (acceptance_time (get "accepted_at" frozen_record))
          >>= λ result. pure (performing "succeeded" (str "dispatched") result))
        λ e. lift (recipe_failure reconcile_recipe_only bundle e)

  unfoldable pub ledger_effect :
      (ExecutionBundle → Action W Value) → ExecutionBundle → Action W Effect
  ledger_effect candidate bundle =
      try
        (candidate bundle >>= λ result. lift (validate_ledger_handoff result (some bundle)) >>= λ _.
          pure (performing "candidate_ready" (str "ledger_candidate_ready") result))
        λ e. pure (ledger_failure e)

  -- An operation of the ledger, with or without a builder of candidates.
  unfoldable pub candidate_effect :
      Option (ExecutionBundle → Action W Value) → ExecutionBundle → Action W Effect
  candidate_effect none bundle = lift (unsupported_effect bundle.operation)
  candidate_effect (some candidate) bundle = ledger_effect candidate bundle

  -- The branches on the operation.
  unfoldable pub perform_effect : Bool → ExecutionBundle → Value → Action W Effect
  perform_effect reconcile_recipe_only bundle frozen_record =
      if eq_str bundle.operation "github.ci.inspect"
      then inspect_effect bundle
      else if eq_str bundle.operation "workspace.recipe.dispatch"
      then recipe_effect reconcile_recipe_only bundle frozen_record
      else if eq_str bundle.operation "governance.ledger"
      then candidate_effect phase.ledger_candidate bundle
      else lift (unsupported_effect bundle.operation)
