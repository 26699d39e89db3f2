-- ===== src/CiInspect/Observed.antt =====
-- What a result of `inspect_ci` of scripts/actions_ci_inspect.py says of the runs that GitHub listed.
use mathlib.Core.List.{Memᴰ}
use zach.Common.{ℕ, ◌≡◌, ◌≤◌, true, Option, none, some, List, [], String, length, All}
use zach.Python.Value.{Value}
use zach.Action.{ok}
use zach.Platform.{Platform}
use zach.Journal.Api.{Transport}
use zach.CiInspect.Policy.{CiInspectionPolicy, max_recent_runs, max_result_bytes, get_json}
use zach.CiInspect.Runs.{RunSummary, run_summary}
use zach.CiInspect.Jobs.{JobSummary, job_summary}
use zach.CiInspect.Order.{has_smaller_id}
use zach.CiInspect.Inspection.{Inspection}
use zach.CiInspect.Inspect.{
  is_still_newest, too_many_runs, runs_page, too_many_jobs, jobs_page, exact_run_url,
}
use zach.CiInspect.Listing.{IsComplete}
use zach.CiInspect.Sorted.{IsOrdered}

module _ {W : Type 0} (api_transport : Transport W) (policy : CiInspectionPolicy)
    (source_sha : String) where
  -- The runs of the commit were listed, from one state to another.
  abbrev pub AreRuns : ℕ × List RunSummary → W → W → Type 0
  AreRuns =
      IsComplete (run_summary policy source_sha) (λ run. run.id) api_transport "workflow_runs"
        (runs_page policy source_sha) too_many_runs

  -- The run was read again at the end, and is the newest one. The jobs of its attempt were listed; the result
  -- has the total of these answers, as many jobs, each of them listed, in the order of their ids.
  pub record IsSelected (i : Inspection) (run : RunSummary) : Type 0 where
    pub answer : Value
    pub last_before : W
    pub last_later : W
    pub read :
        get_json api_transport (exact_run_url policy run.id) last_before ≡ (ok answer, last_later)
    pub summary : run_summary policy source_sha answer ≡ ok run
    pub newest : is_still_newest run i.runs ≡ true
    pub jobs : List JobSummary
    pub jobs_before : W
    pub jobs_later : W
    pub listing :
        IsComplete
          (job_summary policy source_sha run.id run.attempt)
          (λ job. job.id)
          api_transport
          "jobs"
          (jobs_page policy run.id run.attempt)
          too_many_jobs
          (i.jobs_observed_total, jobs)
          jobs_before
          jobs_later
    pub all_jobs : length i.jobs ≡ i.jobs_observed_total
    pub listed_jobs : All (λ job. Memᴰ job jobs) i.jobs
    pub ordered_jobs : IsOrdered has_smaller_id i.jobs

  -- Without a selected run there is no run at all.
  abbrev pub SelectedFacts : Inspection → Option RunSummary → Type 0
  SelectedFacts i none = (i.observed_total ≡ 0) × (i.runs ≡ []) × (i.jobs ≡ [])
  SelectedFacts i (some run) = IsSelected i run

  -- The runs were listed; the result has the total of these answers, and at most ten of the listed runs.
  pub record IsFaithful (i : Inspection) : Type 0 where
    pub is_about : i.source_sha ≡ source_sha
    pub runs : List RunSummary
    pub runs_before : W
    pub runs_later : W
    pub listing : AreRuns (i.observed_total, runs) runs_before runs_later
    pub listed_runs : All (λ run. Memᴰ run runs) i.runs
    pub few_runs : length i.runs ≤ max_recent_runs
    pub counted : length i.runs ≤ i.observed_total
    pub selected : SelectedFacts i i.selected_run

-- A result that fits: its JSON text is at most 16384 bytes.
abbrev pub FitsIn : {B : Type 0} → Platform B → Value → Type 0
FitsIn p v =
    (encoded : String) × (p.dumps v ≡ some encoded) × (p.size (p.encode encoded) ≤ max_result_bytes)
