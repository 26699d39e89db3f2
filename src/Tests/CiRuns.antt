-- ===== src/Tests/CiRuns.antt =====
-- The CI inspection at a concrete input: one completed run and its one failed job.
use zach.Common.{
  ℕ, ◌≡◌, refl, Bool, true, false, Option, none, some, List, [], ◌∷◌, String, ◌⊹◌, str_eq, starts,
  if◌then◌else◌,
}
use zach.Python.Value.{Value, int, str}
use zach.Action.{Result, ok, err, bind, require, or_raise, try, ◌>>=◌}
use zach.Action.Error.{api_error}
use zach.Action.Confined.{Confined}
use zach.Journal.Api.{Transport, get_method}
use zach.Journal.Effects.{KeptBy, Any-Raises}
use zach.CiInspect.Policy.{CiInspectionPolicy, validate_status, get_json}
use zach.CiInspect.Timestamp.{is_timestamp_text, validate_timestamp}
use zach.CiInspect.Runs.{RunSummary, is_own_run, is_event_name, validate_event, run_summary}
use zach.CiInspect.Pages.{check_flag, page_items, collect_rows, list_pages, list_all}
use zach.CiInspect.Inspection.{Inspection}
use zach.CiInspect.Inspect.{list_runs, inspect_ci, runs_page, too_many_runs}
use zach.CiInspect.Listing.{IsComplete, list_all-IsComplete}
use zach.CiInspect.OwnError.{IsCiError}
use zach.CiInspect.ReadOnly.{inspect_ci-Confined}
use zach.Tests.Toy.{toy, object, array, head0, World, start, IsUnmoved}

abbrev policy : CiInspectionPolicy
policy = record {
  repository_alias = "zach";
  repository_full_name = "o/zach";
  repository_id = 5;
  workflow_id = 6;
  workflow_path = ".github/workflows/ci.yml";
}

abbrev own_repository : Value
own_repository = object (("id", int 5) ∷ ("full_name", str "o/zach") ∷ [])

abbrev run_row : Value
run_row = object (
    ("id", int 8)
    ∷ ("run_attempt", int 1)
    ∷ ("repository", own_repository)
    ∷ ("head_repository", own_repository)
    ∷ ("workflow_id", int 6)
    ∷ ("path", str ".github/workflows/ci.yml")
    ∷ ("head_sha", str head0)
    ∷ ("html_url", str "https://github.com/o/zach/actions/runs/8")
    ∷ ("event", str "push")
    ∷ ("status", str "completed")
    ∷ ("conclusion", str "failure")
    ∷ ("created_at", str "2026-02-28T10:00:00Z")
    ∷ ("updated_at", str "2026-02-28T10:05:00Z")
    ∷ [])

abbrev job_row : Value
job_row = object (
    ("id", int 9)
    ∷ ("run_id", int 8)
    ∷ ("run_attempt", int 1)
    ∷ ("head_sha", str head0)
    ∷ ("html_url", str "https://github.com/o/zach/actions/runs/8/job/9")
    ∷ ("status", str "completed")
    ∷ ("conclusion", str "failure")
    ∷ ("name", str "test")
    ∷ (
      "steps",
      array (
          object (
            ("number", int 1)
            ∷ ("status", str "completed")
            ∷ ("conclusion", str "failure")
            ∷ ("name", str "cargo test")
            ∷ [])
          ∷ []),
    )
    ∷ [])

abbrev answer : String → Result Value
answer path =
    if str_eq path "/repos/o/zach"
    then ok own_repository
    else if str_eq path "/repos/o/zach/actions/workflows/6"
    then ok (
        object
          (("id", int 6) ∷ ("path", str ".github/workflows/ci.yml") ∷ ("state", str "active") ∷ []))
    else if starts path "/repos/o/zach/commits/"
    then ok (object (("sha", str head0) ∷ []))
    else if starts path "/repos/o/zach/actions/workflows/6/runs"
    then ok (object (("total_count", int 1) ∷ ("workflow_runs", array (run_row ∷ [])) ∷ []))
    else if starts path "/repos/o/zach/actions/runs/8/attempts/1/jobs"
    then ok (object (("total_count", int 1) ∷ ("jobs", array (job_row ∷ [])) ∷ []))
    else if str_eq path "/repos/o/zach/actions/runs/8"
    then ok run_row
    else err (api_error 404)

abbrev github : Transport World
github method path body w = (answer path, w)

github-reads : KeptBy IsUnmoved github get_method
github-reads path body = record { keeps = λ w h. h; raises = λ w h. Any-Raises (answer path) }

abbrev parameters : Value
parameters = object (("repository", str "zach") ∷ ("source_sha", str head0) ∷ [])

abbrev the_run : RunSummary
the_run = record {
  id = 8;
  attempt = 1;
  workflow_id = 6;
  workflow_path = ".github/workflows/ci.yml";
  event = "push";
  status = "completed";
  conclusion = some "failure";
  head_sha = head0;
  repository_id = 5;
  head_repository_id = 5;
  created_at = "2026-02-28T10:00:00Z";
  updated_at = "2026-02-28T10:05:00Z";
  html_url = "https://github.com/o/zach/actions/runs/8";
}

abbrev found : Inspection
found = record {
  source_sha = head0;
  observed_total = 1;
  runs = the_run ∷ [];
  selected_run = some the_run;
  jobs_observed_total = 1;
  jobs =
      record {
        id = 9;
        name = "test";
        status = "completed";
        conclusion = some "failure";
        html_url = "https://github.com/o/zach/actions/runs/8/job/9";
        failed_steps = record { number = 1; name = "cargo test"; conclusion = "failure" } ∷ [];
        labels_truncated = false;
      }
      ∷ [];
  labels_truncated = false;
}

lists_the_run : list_runs github policy head0 start ≡ (ok (1, the_run ∷ []), start)
unfolding list_runs list_all list_pages collect_rows page_items check_flag get_json run_summary
    is_own_run validate_event is_event_name validate_status validate_timestamp is_timestamp_text
    bind require or_raise try ◌>>=◌ zach.Common.show starts zach.Common.is_ascii
lists_the_run = refl

inspect_ci-Confined_example : Confined IsUnmoved IsCiError (inspect_ci github policy toy parameters)
inspect_ci-Confined_example =
    inspect_ci-Confined IsUnmoved github github-reads policy toy parameters

list_all-IsComplete_example :
    IsComplete
      (run_summary policy head0)
      (λ run. run.id)
      github
      "workflow_runs"
      (runs_page policy head0)
      too_many_runs
      (1, the_run ∷ [])
      start
      start
unfolding list_runs
list_all-IsComplete_example =
    list_all-IsComplete (run_summary policy head0) (λ run. run.id) github "workflow_runs"
      (runs_page policy head0) too_many_runs start lists_the_run
