-- ===== src/Dispatch/Run.antt =====
-- `_preflight` and `_readback` of scripts/actions_recipe_dispatch.py.
use zach.Common.{ℕ, Bool, not, ◌&&◌, ◌||◌, ◌⊹◌, show}
use zach.Python.Value.{Value, null, get, is_dict, eq_str, eq_int}
use zach.Action.{Action, require, pure, lift, raise, try, ◌>>=◌, ◌>>◌}
use zach.Action.Error.{RecipeCode}
use zach.Platform.{Platform}
use zach.Journal.Api.{Transport, get_method}
use zach.Dispatch.Policy.{RecipeDispatchPolicy, refused, ambiguous, get_json}
use zach.Dispatch.Parameters.{RecipeInputs}
use zach.Dispatch.Validate.{repo_url, run_path, is_own_repository, validate_run}

unfoldable pub is_own_workflow : RecipeDispatchPolicy → Bool → Value → Bool
is_own_workflow policy require_dispatchable workflow =
    is_dict workflow
    && eq_int (get "id" workflow) policy.workflow_id
    && eq_str (get "path" workflow) policy.workflow_path
    && (not require_dispatchable || eq_str (get "state" workflow) "active")

module _ {W : Type 0} (policy : RecipeDispatchPolicy) (api_transport : Transport W) where
  -- It returns the workflow's id as the answer has it.
  unfoldable pub preflight : Bool → Action W Value
  preflight require_dispatchable = do
    repository ← get_json api_transport (repo_url policy)
    lift (
        require
          (is_own_repository policy repository
            && (not require_dispatchable || eq_str (get "default_branch" repository) policy.ref))
          (refused RecipeCode.recipe_repository_identity_mismatch))
    workflow ←
        get_json api_transport (repo_url policy ⊹ "/actions/workflows/" ⊹ show policy.workflow_id)
    lift (
        require (is_own_workflow policy require_dispatchable workflow)
          (refused RecipeCode.recipe_workflow_identity_mismatch))
    pure (get "id" workflow)

module _ {B : Type 0} (p : Platform B) (policy : RecipeDispatchPolicy) where
  unfoldable pub readback : {W : Type 0} → Transport W → ℕ → ℕ → RecipeInputs → Action W Value
  readback api_transport run_id accepted_at inputs = do
    run ←
        try (api_transport get_method (run_path policy run_id) null)
          (λ _. raise (ambiguous RecipeCode.recipe_dispatch_readback_ambiguous))
    lift (validate_run p policy run run_id accepted_at inputs)
