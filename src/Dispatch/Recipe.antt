-- ===== src/Dispatch/Recipe.antt =====
-- `dispatch_recipe` and `reconcile_recipe` of scripts/actions_recipe_dispatch.py.
use zach.Common.{ℕ, true, false, ◌&&◌, List, [], ◌∷◌, String, ◌⊹◌, ltb, leb, if◌then◌else◌}
use zach.Python.Value.{Value, str, dict, fields_of, get, eq_str}
use zach.Action.{Result, ok, err, Action, bind, require, or_raise, lift, raise, try, ◌>>=◌, ◌>>◌}
use zach.Action.Error.{Exc, RecipeCode, api_error, recipe_dispatch_error}
use zach.Platform.{Platform}
use zach.Journal.Api.{Transport, post_method}
use zach.CiInspect.Policy.{positive_int}
use zach.Dispatch.Policy.{RecipeDispatchPolicy, refused, ambiguous, validate_policy}
use zach.Dispatch.Parameters.{
  RecipeInputs, are_names, inputs_value, validate_parameters, parse_timestamp,
}
use zach.Dispatch.Validate.{repo_url, run_url, html_url, expected_title, validate_run}
use zach.Dispatch.Run.{preflight, readback}
use zach.Dispatch.Scan.{scan_runs, snapshots_eq}

-- A client error was refused; after any other one the effect is unknown.
abbrev pub dispatch_failure : Exc → Exc
dispatch_failure (api_error status) =
    if leb 400 status && ltb status 500
    then refused RecipeCode.recipe_dispatch_rejected
    else ambiguous RecipeCode.recipe_dispatch_ambiguous
dispatch_failure e = ambiguous RecipeCode.recipe_dispatch_ambiguous

abbrev pub dispatch_body : RecipeDispatchPolicy → RecipeInputs → Value
dispatch_body policy inputs =
    dict (fields_of (("ref", str policy.ref) ∷ ("inputs", inputs_value inputs) ∷ []))

-- The id of the run in the answer to a dispatch, which must name its URLs.
unfoldable pub dispatched_run : RecipeDispatchPolicy → Value → Result ℕ
dispatched_run policy response =
    let unproved = ambiguous RecipeCode.recipe_dispatch_response_ambiguous in
    bind (or_raise (positive_int (get "workflow_run_id" response)) unproved) λ run_id.
      bind (require (are_names ("workflow_run_id" ∷ "run_url" ∷ "html_url" ∷ []) response) unproved)
        λ _.
          bind
            (require
              (eq_str (get "run_url" response) (run_url policy run_id)
                && eq_str (get "html_url" response) (html_url policy run_id))
              unproved)
            λ _. ok run_id

-- What a loop makes of an exception: `RecipeDispatchError` passes to the next run.
abbrev pub unless_recipe_error : Exc → Result (List ℕ) → Result (List ℕ)
unless_recipe_error (recipe_dispatch_error code retryable ambiguous) rest = rest
unless_recipe_error e rest = err e

abbrev pub with_match : ℕ → Result Value → Result (List ℕ) → Result (List ℕ)
with_match run_id (ok result) rest = bind rest λ matches. ok (run_id ∷ matches)
with_match run_id (err e) rest = unless_recipe_error e rest

abbrev pub single_match : List ℕ → Result ℕ
single_match [] = err (ambiguous RecipeCode.recipe_reconciliation_not_found)
single_match (run_id ∷ []) = ok run_id
single_match (a ∷ b ∷ matches) = err (ambiguous RecipeCode.recipe_reconciliation_multiple_runs)

module _ {B W : Type 0} (p : Platform B) (api_transport : Transport W)
    (policy : RecipeDispatchPolicy) where
  -- The path takes the id as Python formats it.
  abbrev pub dispatches_path : Value → String
  dispatches_path workflow_id =
      repo_url policy ⊹ "/actions/workflows/" ⊹ p.format workflow_id ⊹ "/dispatches"

  -- The one request with an effect.
  unfoldable pub send_dispatch : RecipeInputs → Value → Action W Value
  send_dispatch inputs workflow_id =
      try (api_transport post_method (dispatches_path workflow_id) (dispatch_body policy inputs))
        (λ e. raise (dispatch_failure e))

  unfoldable pub dispatch_recipe : Value → String → String → Action W Value
  dispatch_recipe parameters request_id accepted_at = do
    lift (validate_policy policy)
    inputs ← lift (validate_parameters p parameters policy request_id)
    acceptance_time ← lift (parse_timestamp (str accepted_at))
    workflow_id ← preflight policy api_transport true
    response ← send_dispatch inputs workflow_id
    run_id ← lift (dispatched_run policy response)
    readback p policy api_transport run_id acceptance_time inputs

  -- The loop over the scanned runs.
  unfoldable pub find_matches : RecipeInputs → ℕ → List (ℕ × Value) → Result (List ℕ)
  find_matches inputs acceptance_time [] = ok []
  find_matches inputs acceptance_time (run ∷ runs) =
      let rest = find_matches inputs acceptance_time runs in
      if eq_str (get "display_title" run.1) (expected_title inputs)
      then with_match run.0 (validate_run p policy run.1 run.0 acceptance_time inputs) rest
      else rest

  unfoldable pub reconcile_recipe : Value → String → String → Action W Value
  reconcile_recipe parameters request_id accepted_at = do
    lift (validate_policy policy)
    inputs ← lift (validate_parameters p parameters policy request_id)
    acceptance_time ← lift (parse_timestamp (str accepted_at))
    preflight policy api_transport false
    scan_1 ← scan_runs p api_transport policy
    scan_2 ← scan_runs p api_transport policy
    lift (
        require (snapshots_eq scan_1.snapshot scan_2.snapshot)
          (ambiguous RecipeCode.recipe_reconciliation_unstable))
    matches ← lift (find_matches inputs acceptance_time scan_1.runs)
    run_id ← lift (single_match matches)
    readback p policy api_transport run_id acceptance_time inputs
