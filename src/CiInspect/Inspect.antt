-- ===== src/CiInspect/Inspect.antt =====
-- `_list_runs`, `_list_jobs` and `inspect_ci` of scripts/actions_ci_inspect.py.
use zach.Common.{
  ℕ, ◌*◌, Bool, false, ◌&&◌, none, some, List, [], ◌∷◌, String, ◌⊹◌, show, ltb, leb, take,
}
use zach.Python.Value.{Value, get, is_dict, eq_str}
use zach.Action.{Action, require, pure, lift, ◌>>=◌, ◌>>◌}
use zach.Action.Error.{CiCode}
use zach.Platform.{Platform}
use zach.Journal.Api.{Transport}
use zach.CiInspect.Policy.{
  CiInspectionPolicy, per_page, max_pages, max_recent_runs, fatal, retryable, same_positive_id,
  validate_policy, validate_parameters, get_json,
}
use zach.CiInspect.Runs.{RunSummary, run_summary, run_eq}
use zach.CiInspect.Pages.{list_all}
use zach.CiInspect.Jobs.{JobSummary, job_summary, any_truncated}
use zach.CiInspect.Order.{newest_first, by_id}
use zach.CiInspect.Inspection.{Inspection, inspection_value, bounded_result}

abbrev pub repo_url : CiInspectionPolicy → String
repo_url policy = "/repos/" ⊹ policy.repository_full_name

abbrev pub workflow_url : CiInspectionPolicy → String
workflow_url policy = repo_url policy ⊹ "/actions/workflows/" ⊹ show policy.workflow_id

abbrev pub exact_run_url : CiInspectionPolicy → ℕ → String
exact_run_url policy run_id = repo_url policy ⊹ "/actions/runs/" ⊹ show run_id

abbrev pub runs_page : CiInspectionPolicy → String → ℕ → String
runs_page policy source_sha page =
    workflow_url policy ⊹ "/runs?head_sha=" ⊹ source_sha ⊹ "&per_page=100&page=" ⊹ show page

abbrev pub jobs_page : CiInspectionPolicy → ℕ → ℕ → ℕ → String
jobs_page policy run_id attempt page =
    exact_run_url policy run_id
    ⊹ "/attempts/"
    ⊹ show attempt
    ⊹ "/jobs?per_page=100&page="
    ⊹ show page

-- `total >= PER_PAGE * MAX_PAGES` and `total > PER_PAGE * MAX_PAGES`
abbrev pub too_many_runs : ℕ → Bool
too_many_runs total = leb (per_page * max_pages) total

abbrev pub too_many_jobs : ℕ → Bool
too_many_jobs total = ltb (per_page * max_pages) total

unfoldable pub is_policy_repository : CiInspectionPolicy → Value → Bool
is_policy_repository policy repository =
    is_dict repository
    && same_positive_id (get "id" repository) policy.repository_id
    && eq_str (get "full_name" repository) policy.repository_full_name

unfoldable pub is_policy_workflow : CiInspectionPolicy → Value → Bool
is_policy_workflow policy workflow =
    is_dict workflow
    && same_positive_id (get "id" workflow) policy.workflow_id
    && eq_str (get "path" workflow) policy.workflow_path
    && eq_str (get "state" workflow) "active"

unfoldable pub is_commit : String → Value → Bool
is_commit source_sha commit = is_dict commit && eq_str (get "sha" commit) source_sha

-- The newest run is the selected one, unchanged.
abbrev pub is_still_newest : RunSummary → List RunSummary → Bool
is_still_newest selected [] = false
is_still_newest selected (run ∷ runs) = run_eq run selected

module _ {W : Type 0} (api_transport : Transport W) (policy : CiInspectionPolicy) where
  unfoldable pub list_runs : String → Action W (ℕ × List RunSummary)
  list_runs source_sha =
      list_all (run_summary policy source_sha) (λ run. run.id) api_transport "workflow_runs"
        (runs_page policy source_sha) too_many_runs

  unfoldable pub list_jobs : String → ℕ → ℕ → Action W (ℕ × List JobSummary)
  list_jobs source_sha run_id attempt =
      list_all (job_summary policy source_sha run_id attempt) (λ job. job.id) api_transport "jobs"
        (jobs_page policy run_id attempt) too_many_jobs

  -- The repository, the workflow and the commit are those of the request.
  unfoldable pub check_identities : String → Action W (Unit {0})
  check_identities source_sha = do
    repository ← get_json api_transport (repo_url policy)
    lift (
        require (is_policy_repository policy repository)
          (fatal CiCode.repository_identity_mismatch))
    workflow ← get_json api_transport (workflow_url policy)
    lift (require (is_policy_workflow policy workflow) (fatal CiCode.workflow_identity_mismatch))
    commit ← get_json api_transport (repo_url policy ⊹ "/commits/" ⊹ source_sha)
    lift (require (is_commit source_sha commit) (fatal CiCode.commit_identity_mismatch))

  -- From the first run of the list on: its jobs, the list again, and the run again.
  unfoldable pub inspect_selected : String → RunSummary → Action W Inspection
  inspect_selected source_sha selected = do
    jobs ← list_jobs source_sha selected.id selected.attempt
    final ← list_runs source_sha
    lift (require (is_still_newest selected (newest_first final.1)) (retryable CiCode.run_changed))
    exact ← get_json api_transport (exact_run_url policy selected.id)
    exact_summary ← lift (run_summary policy source_sha exact)
    lift (require (run_eq exact_summary selected) (retryable CiCode.run_changed))
    pure (record {
      source_sha = source_sha;
      observed_total = final.0;
      runs = take max_recent_runs (newest_first final.1);
      selected_run = some exact_summary;
      jobs_observed_total = jobs.0;
      jobs = by_id jobs.1;
      labels_truncated = any_truncated jobs.1;
    })

  abbrev pub inspect_runs : String → ℕ → List RunSummary → Action W Inspection
  inspect_runs source_sha observed_total [] = pure (record {
    source_sha = source_sha;
    observed_total = observed_total;
    runs = [];
    selected_run = none;
    jobs_observed_total = 0;
    jobs = [];
    labels_truncated = false;
  })
  inspect_runs source_sha observed_total (selected ∷ runs) = inspect_selected source_sha selected

  unfoldable pub observe : String → Action W Inspection
  observe source_sha = do
    check_identities source_sha
    listed ← list_runs source_sha
    inspect_runs source_sha listed.0 (newest_first listed.1)

  module _ {B : Type 0} (p : Platform B) where
    unfoldable pub inspect_ci : Value → Action W Value
    inspect_ci parameters = do
      lift (validate_policy policy)
      source_sha ← lift (validate_parameters parameters policy)
      inspection ← observe source_sha
      lift (bounded_result p (inspection_value policy inspection))
