-- ===== src/Dispatch/Validate.antt =====
-- `_validate_run` of scripts/actions_recipe_dispatch.py.
use zach.Common.{
  ℕ, ◌-◌, Bool, true, false, ◌&&◌, Option, none, some, List, [], ◌∷◌, String, ◌⊹◌, show, str_eq,
  leb, if◌then◌else◌,
}
use zach.Python.Value.{
  Value, int, str, list, dict, fields_of, get, is_dict, is_str, is_null, eq_str, eq_int,
}
use zach.Action.{Result, require, or_raise, recode}
use zach.Action.Checks.{◌>>=◌, ◌>>◌}
use zach.Action.Error.{RecipeCode, other_exception}
use zach.Platform.{Platform}
use zach.Journal.Record.{is_sha40}
use zach.CiInspect.Policy.{is_member}
use zach.Dispatch.Policy.{RecipeDispatchPolicy, ambiguous, dispatch_clock_skew}
use zach.Dispatch.Parameters.{RecipeInputs, text_if, parse_timestamp, bounded}

abbrev pub repo_url : RecipeDispatchPolicy → String
repo_url policy = "/repos/" ⊹ policy.repository_full_name

abbrev pub run_path : RecipeDispatchPolicy → ℕ → String
run_path policy run_id = repo_url policy ⊹ "/actions/runs/" ⊹ show run_id

abbrev pub run_url : RecipeDispatchPolicy → ℕ → String
run_url policy run_id = "https://api.github.com" ⊹ run_path policy run_id

abbrev pub html_url : RecipeDispatchPolicy → ℕ → String
html_url policy run_id =
    "https://github.com/" ⊹ policy.repository_full_name ⊹ "/actions/runs/" ⊹ show run_id

unfoldable pub is_own_repository : RecipeDispatchPolicy → Value → Bool
is_own_repository policy repository =
    is_dict repository
    && eq_int (get "id" repository) policy.repository_id
    && eq_str (get "full_name" repository) policy.repository_full_name

unfoldable pub expected_title : RecipeInputs → String
expected_title inputs =
    "Sandbox " ⊹ inputs.operation ⊹ " / " ⊹ inputs.request_id ⊹ " / " ⊹ inputs.request_binding

-- The tests of `_validate_run` before the comparison of the times.
unfoldable pub is_titled_run : RecipeDispatchPolicy → RecipeInputs → ℕ → Value → Bool
is_titled_run policy inputs run_id run =
    eq_int (get "id" run) run_id
    && eq_int (get "workflow_id" run) policy.workflow_id
    && eq_str (get "path" run) policy.workflow_path
    && eq_str (get "event" run) "workflow_dispatch"
    && eq_str (get "head_branch" run) policy.ref
    && eq_str (get "display_title" run) (expected_title inputs)

-- The tests after it, up to the URLs.
unfoldable pub is_run_of_actor : RecipeDispatchPolicy → ℕ → Value → Bool
is_run_of_actor policy run_id run =
    is_dict (get "actor" run)
    && eq_int (get "id" (get "actor" run)) policy.actor_id
    && is_own_repository policy (get "repository" run)
    && is_own_repository policy (get "head_repository" run)
    && eq_str (get "url" run) (run_url policy run_id)
    && eq_str (get "html_url" run) (html_url policy run_id)

-- `status in {...}` raises for a list or a dictionary.
abbrev pub is_hashable : Value → Bool
is_hashable (list vs) = false
is_hashable (dict fs) = false
is_hashable _ = true

abbrev pub dispatch_statuses : List String
dispatch_statuses =
    "queued" ∷ "in_progress" ∷ "waiting" ∷ "requested" ∷ "pending" ∷ "completed" ∷ []

abbrev pub status_text : Value → Value → Option String
status_text (str status) conclusion =
    if is_member status dispatch_statuses
      && (if str_eq status "completed" then is_str conclusion else is_null conclusion)
    then some status
    else none
status_text _ conclusion = none

abbrev pub object : List (String × Value) → Value
object es = dict (fields_of es)

unfoldable pub dispatched_value : RecipeDispatchPolicy → RecipeInputs → ℕ → String → String → Value
dispatched_value policy inputs run_id head_sha status = object (
    ("schema_version", int 1)
    ∷ ("kind", str "workspace.recipe.dispatch.result")
    ∷ ("result", str "dispatched")
    ∷ ("recipe", str policy.recipe)
    ∷ ("operation", str inputs.operation)
    ∷ ("request_id", str inputs.request_id)
    ∷ ("request_binding", str inputs.request_binding)
    ∷ ("repository", str policy.repository_alias)
    ∷ ("repository_full_name", str policy.repository_full_name)
    ∷ ("repository_id", int policy.repository_id)
    ∷ (
      "workflow",
      object (("id", int policy.workflow_id) ∷ ("path", str policy.workflow_path) ∷ []),
    )
    ∷ ("ref", str policy.ref)
    ∷ ("workflow_head_sha", str head_sha)
    ∷ ("status", str status)
    ∷ (
      "workflow_run",
      object (
          ("id", int run_id)
          ∷ ("run_url", str (run_url policy run_id))
          ∷ ("html_url", str (html_url policy run_id))
          ∷ []),
    )
    ∷ ("source_sha", str inputs.source_sha)
    ∷ ("artifact_sha256", str inputs.artifact_sha256)
    ∷ ("expected_current", str inputs.expected_current)
    ∷ [])

-- The difference of the times is an `OverflowError` in the first five minutes of year 1.
unfoldable pub validate_run :
    {B : Type 0} → Platform B → RecipeDispatchPolicy → Value → ℕ → ℕ → RecipeInputs → Result Value
validate_run p policy run run_id accepted_at inputs = do
  let unproved = ambiguous RecipeCode.recipe_dispatch_readback_ambiguous
  require (is_dict run) unproved
  created_at ← recode unproved (parse_timestamp (get "created_at" run))
  require (is_titled_run policy inputs run_id run) unproved
  require (leb dispatch_clock_skew accepted_at) other_exception
  require (leb (accepted_at - dispatch_clock_skew) created_at) unproved
  head_sha ← or_raise (text_if is_sha40 (get "head_sha" run)) unproved
  require (is_run_of_actor policy run_id run) unproved
  require (is_hashable (get "status" run)) other_exception
  status ← or_raise (status_text (get "status" run) (get "conclusion" run)) unproved
  bounded p (dispatched_value policy inputs run_id head_sha status)
