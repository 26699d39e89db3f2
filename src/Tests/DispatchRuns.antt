-- ===== src/Tests/DispatchRuns.antt =====
-- A rollback that is dispatched and read back.
use zach.Common.{◌≡◌, ◌⊎◌, refl, Bool, true, [], ◌∷◌, String, str_eq, starts, if◌then◌else◌}
use zach.Python.Value.{Value, null, int, str}
use zach.Action.{Result, ok, err, bind, require, or_raise, recode, try, ◌>>=◌}
use zach.Action.Error.{api_error}
use zach.Action.Confined.{Confined}
use zach.Journal.Api.{Transport, Method, get_method, post_method}
use zach.Journal.Effects.{KeptBy, Any, Any-Raises}
use zach.CiInspect.Policy.{is_alias, is_repository}
use zach.Journal.Record.{is_sha40}
use zach.Dispatch.Parameters.{
  validate_parameters, is_recipe_request_id, are_names, checked_operation, bound_inputs, bounded,
  parse_timestamp, timestamp_seconds,
}
use zach.Dispatch.Validate.{
  is_own_repository, validate_run, is_titled_run, is_run_of_actor, expected_title, dispatched_value,
}
use zach.Python.Equal.{value_eq, items_eq, fields_in}
use zach.Dispatch.Scan.{scan_runs, scan_pages, scan_page, run_snapshot}
use zach.Dispatch.Run.{preflight, is_own_workflow, readback}
use zach.Dispatch.Proved.{IsReadBack, dispatch_recipe-IsReadBack, reconcile_recipe-IsReadBack}
use zach.Dispatch.Policy.{
  RecipeDispatchPolicy, validate_policy, is_workflow_path, is_file_rest, is_ref, is_sha256,
  get_json,
}
use zach.Dispatch.Recipe.{
  send_dispatch, dispatched_run, dispatch_recipe, find_matches, reconcile_recipe,
}
use zach.Dispatch.Once.{reconcile_recipe-Confined, dispatch_recipe-once}
use zach.Tests.Toy.{toy, object, array, head0, head3, World, start, IsUnmoved}

abbrev recipe_policy : RecipeDispatchPolicy
recipe_policy = record {
  recipe = "sandbox.delivery";
  repository_alias = "sandbox";
  repository_full_name = "o/s";
  repository_id = 5;
  workflow_id = 6;
  workflow_path = ".github/workflows/deliver.yml";
  ref = "main";
  actor_id = 7;
}

abbrev rollback : Value
rollback = object (
    ("recipe", str "sandbox.delivery")
    ∷ ("operation", str "rollback")
    ∷ ("source_sha", str head0)
    ∷ ("artifact_sha256", str "0123456789abcdef0123456789abcdef0123456789abcdef0123456789abcdef")
    ∷ ("expected_current", str head3)
    ∷ [])

abbrev sandbox : Value
sandbox = object (("id", int 5) ∷ ("full_name", str "o/s") ∷ ("default_branch", str "main") ∷ [])

abbrev dispatched : Value
dispatched = object (
    ("id", int 8)
    ∷ ("workflow_id", int 6)
    ∷ ("path", str ".github/workflows/deliver.yml")
    ∷ ("event", str "workflow_dispatch")
    ∷ ("head_branch", str "main")
    ∷ ("display_title", str "Sandbox rollback / request-1 / d1")
    ∷ ("created_at", str "2026-03-01T00:00:00Z")
    ∷ ("head_sha", str head0)
    ∷ ("actor", object (("id", int 7) ∷ []))
    ∷ ("repository", sandbox)
    ∷ ("head_repository", sandbox)
    ∷ ("url", str "https://api.github.com/repos/o/s/actions/runs/8")
    ∷ ("html_url", str "https://github.com/o/s/actions/runs/8")
    ∷ ("status", str "queued")
    ∷ ("conclusion", null)
    ∷ [])

abbrev answer : Method → String → Result Value
answer post_method path = ok (
    object (
      ("workflow_run_id", int 8)
      ∷ ("run_url", str "https://api.github.com/repos/o/s/actions/runs/8")
      ∷ ("html_url", str "https://github.com/o/s/actions/runs/8")
      ∷ []))
answer _ path =
    if str_eq path "/repos/o/s"
    then ok sandbox
    else if str_eq path "/repos/o/s/actions/workflows/6"
    then ok (
        object (
          ("id", int 6)
          ∷ ("path", str ".github/workflows/deliver.yml")
          ∷ ("state", str "active")
          ∷ []))
    else if starts path "/repos/o/s/actions/workflows/6/runs"
    then ok (object (("total_count", int 1) ∷ ("workflow_runs", array (dispatched ∷ [])) ∷ []))
    else if str_eq path "/repos/o/s/actions/runs/8"
    then ok dispatched
    else err (api_error 404)

abbrev is_post : Method → Bool → Bool
is_post post_method done = true
is_post _ done = done

abbrev sandbox_api : Transport World
sandbox_api method path body w = (answer method path, (w.0, is_post method w.1))

abbrev IsDispatched : World → Type 0
IsDispatched w = w.1 ≡ true

before : KeptBy IsUnmoved sandbox_api get_method
before path body = record { keeps = λ w h. h; raises = λ w h. Any-Raises (answer get_method path) }

after : KeptBy IsDispatched sandbox_api get_method
after path body = record { keeps = λ w h. h; raises = λ w h. Any-Raises (answer get_method path) }

dispatch_recipe-once_example :
    IsUnmoved
      (dispatch_recipe toy sandbox_api recipe_policy rollback "request-1" "2026-03-01T00:00:00Z"
        start).1
    ⊎ IsDispatched
        (dispatch_recipe toy sandbox_api recipe_policy rollback "request-1" "2026-03-01T00:00:00Z"
          start).1
dispatch_recipe-once_example =
    dispatch_recipe-once toy sandbox_api recipe_policy IsUnmoved IsDispatched before after rollback
      "request-1" "2026-03-01T00:00:00Z" (λ inputs workflow_id checked w h. refl) start refl

reconcile_recipe-Confined_example :
    Confined IsDispatched Any
      (reconcile_recipe toy sandbox_api recipe_policy rollback "request-1" "2026-03-01T00:00:00Z")
reconcile_recipe-Confined_example =
    reconcile_recipe-Confined toy sandbox_api recipe_policy IsDispatched after rollback "request-1"
      "2026-03-01T00:00:00Z"

abbrev result : Value
result =
    dispatched_value recipe_policy
      (record {
        operation = "rollback";
        request_id = "request-1";
        source_sha = head0;
        artifact_sha256 = "0123456789abcdef0123456789abcdef0123456789abcdef0123456789abcdef";
        expected_current = head3;
        deployment = [];
        request_binding = "d1";
      })
      8 head0 "queued"

dispatches_the_rollback :
    dispatch_recipe toy sandbox_api recipe_policy rollback "request-1" "2026-03-01T00:00:00Z" start
    ≡ (ok result, (7, true))
unfolding dispatch_recipe send_dispatch dispatched_run validate_policy is_workflow_path is_file_rest
    is_ref is_alias is_repository validate_parameters is_recipe_request_id are_names
    checked_operation bound_inputs bounded parse_timestamp timestamp_seconds is_sha256 is_sha40
    preflight is_own_workflow is_own_repository get_json readback validate_run is_titled_run
    is_run_of_actor expected_title dispatched_value bind require or_raise recode try ◌>>=◌ starts
    zach.Common.all_codes zach.Common.split_slash zach.Common.show zach.Common.codes
dispatches_the_rollback = refl

dispatch_recipe-IsReadBack_example :
    IsReadBack toy sandbox_api recipe_policy rollback "request-1" "2026-03-01T00:00:00Z" result
      (7, true)
dispatch_recipe-IsReadBack_example =
    dispatch_recipe-IsReadBack toy sandbox_api recipe_policy rollback "request-1"
      "2026-03-01T00:00:00Z" start dispatches_the_rollback

finds_the_rollback :
    reconcile_recipe toy sandbox_api recipe_policy rollback "request-1" "2026-03-01T00:00:00Z"
      (7, true)
    ≡ (ok result, (7, true))
unfolding reconcile_recipe find_matches scan_runs scan_pages scan_page run_snapshot value_eq
    items_eq fields_in validate_policy is_workflow_path is_file_rest is_ref is_alias is_repository
    validate_parameters is_recipe_request_id are_names checked_operation bound_inputs bounded
    parse_timestamp timestamp_seconds is_sha256 is_sha40 preflight is_own_workflow is_own_repository
    get_json readback validate_run is_titled_run is_run_of_actor expected_title dispatched_value
    bind require or_raise recode try ◌>>=◌ starts zach.Common.all_codes zach.Common.split_slash
    zach.Common.show zach.Common.codes
finds_the_rollback = refl

reconcile_recipe-IsReadBack_example :
    IsReadBack toy sandbox_api recipe_policy rollback "request-1" "2026-03-01T00:00:00Z" result
      (7, true)
reconcile_recipe-IsReadBack_example =
    reconcile_recipe-IsReadBack toy sandbox_api recipe_policy rollback "request-1"
      "2026-03-01T00:00:00Z" (7, true) finds_the_rollback
