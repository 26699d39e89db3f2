-- ===== src/CiInspect/Inspection.antt =====
-- The dictionary that `inspect_ci` of scripts/actions_ci_inspect.py returns, and `_bounded_result`.
use zach.Common.{ℕ, Bool, true, Option, none, some, List, [], ◌∷◌, String, map, leb}
use zach.Python.Value.{Value, null, bool, int, str, list, dict, items_of, fields_of}
use zach.Action.{Result, ok, or_raise, require}
use zach.Action.Checks.{◌>>=◌, ◌>>◌}
use zach.Action.Error.{CiCode}
use zach.Platform.{Platform}
use zach.CiInspect.Policy.{CiInspectionPolicy, max_result_bytes, fatal}
use zach.CiInspect.Runs.{RunSummary}
use zach.CiInspect.Jobs.{FailedStep, JobSummary}

-- What varies in the result, beside the policy.
pub record Inspection : Type 0 where
  pub source_sha : String
  pub observed_total : ℕ
  pub runs : List RunSummary
  pub selected_run : Option RunSummary
  pub jobs_observed_total : ℕ
  pub jobs : List JobSummary
  pub labels_truncated : Bool

abbrev pub optional_str : Option String → Value
optional_str none = null
optional_str (some s) = str s

-- A dictionary from its entries in order.
abbrev pub entries : List (String × Value) → Value
entries es = dict (fields_of es)

unfoldable pub run_value : RunSummary → Value
run_value run = entries (
    ("id", int run.id)
    ∷ ("attempt", int run.attempt)
    ∷ ("workflow_id", int run.workflow_id)
    ∷ ("workflow_path", str run.workflow_path)
    ∷ ("event", str run.event)
    ∷ ("status", str run.status)
    ∷ ("conclusion", optional_str run.conclusion)
    ∷ ("head_sha", str run.head_sha)
    ∷ ("repository_id", int run.repository_id)
    ∷ ("head_repository_id", int run.head_repository_id)
    ∷ ("created_at", str run.created_at)
    ∷ ("updated_at", str run.updated_at)
    ∷ ("html_url", str run.html_url)
    ∷ [])

unfoldable pub step_value : FailedStep → Value
step_value step = entries (
    ("number", int step.number)
    ∷ ("name", str step.name)
    ∷ ("conclusion", str step.conclusion)
    ∷ [])

unfoldable pub job_value : JobSummary → Value
job_value job = entries (
    ("id", int job.id)
    ∷ ("name", str job.name)
    ∷ ("status", str job.status)
    ∷ ("conclusion", optional_str job.conclusion)
    ∷ ("html_url", str job.html_url)
    ∷ ("failed_steps", list (items_of (map step_value job.failed_steps)))
    ∷ [])

abbrev pub selected_value : Option RunSummary → Value
selected_value none = null
selected_value (some run) = run_value run

abbrev pub outcome_word : Option RunSummary → String
outcome_word none = "not_found"
outcome_word (some run) = "found"

unfoldable pub inspection_value : CiInspectionPolicy → Inspection → Value
inspection_value policy i = entries (
    ("schema_version", int 1)
    ∷ ("kind", str "github.ci.inspect")
    ∷ ("repository", str policy.repository_alias)
    ∷ ("repository_full_name", str policy.repository_full_name)
    ∷ ("repository_id", int policy.repository_id)
    ∷ ("source_sha", str i.source_sha)
    ∷ (
      "workflow",
      entries (
          ("id", int policy.workflow_id)
          ∷ ("path", str policy.workflow_path)
          ∷ ("state", str "active")
          ∷ []),
    )
    ∷ ("observed_total", int i.observed_total)
    ∷ ("complete", bool true)
    ∷ ("runs", list (items_of (map run_value i.runs)))
    ∷ ("result", str (outcome_word i.selected_run))
    ∷ ("selected_run", selected_value i.selected_run)
    ∷ ("jobs_observed_total", int i.jobs_observed_total)
    ∷ ("jobs_complete", bool true)
    ∷ ("jobs", list (items_of (map job_value i.jobs)))
    ∷ ("labels_truncated", bool i.labels_truncated)
    ∷ [])

module _ {B : Type 0} (p : Platform B) where
  unfoldable pub bounded_result : Value → Result Value
  bounded_result result = do
    encoded ← or_raise (p.dumps result) (fatal CiCode.result_encoding_failed)
    require (leb (p.size (p.encode encoded)) max_result_bytes) (fatal CiCode.result_too_large)
    ok result
