-- ===== src/CiInspect/Runs.antt =====
-- `_run_summary` of scripts/actions_ci_inspect.py.
use zach.Common.{
  List, [], ◌∷◌, ℕ, Bool, true, false, ◌&&◌, ◌||◌, Option, none, some, String, ◌⊹◌, count, leb,
  ◌==◌, str_eq, all_codes, is_ascii, is_alnum, show, if◌then◌else◌,
}
use zach.Python.Value.{Value, str, get, is_dict, eq_str}
use zach.Action.{Result, ok, err, require, or_raise}
use zach.Action.Checks.{◌>>=◌, ◌>>◌}
use zach.Action.Error.{CiCode}
use zach.CiInspect.Policy.{
  CiInspectionPolicy, fatal, positive_int, same_positive_id, validate_status,
}
use zach.CiInspect.Timestamp.{validate_timestamp}

-- The dictionary that `_run_summary` returns.
pub record RunSummary : Type 0 where
  pub id : ℕ
  pub attempt : ℕ
  pub workflow_id : ℕ
  pub workflow_path : String
  pub event : String
  pub status : String
  pub conclusion : Option String
  pub head_sha : String
  pub repository_id : ℕ
  pub head_repository_id : ℕ
  pub created_at : String
  pub updated_at : String
  pub html_url : String

abbrev pub run_url : CiInspectionPolicy → ℕ → String
run_url policy run_id =
    "https://github.com/" ⊹ policy.repository_full_name ⊹ "/actions/runs/" ⊹ show run_id

-- `repository`, `head_repository`, `workflow_id`, `path` and `head_sha` are those of the policy.
abbrev pub is_own_repository : CiInspectionPolicy → Value → Bool
is_own_repository policy repository =
    is_dict repository
    && same_positive_id (get "id" repository) policy.repository_id
    && eq_str (get "full_name" repository) policy.repository_full_name

unfoldable pub is_own_run : CiInspectionPolicy → String → Value → Bool
is_own_run policy source_sha row =
    is_own_repository policy (get "repository" row)
    && is_own_repository policy (get "head_repository" row)
    && same_positive_id (get "workflow_id" row) policy.workflow_id
    && eq_str (get "path" row) policy.workflow_path
    && eq_str (get "head_sha" row) source_sha

unfoldable pub is_event_name : String → Bool
is_event_name event =
    (leb 1 (count event) && leb (count event) 64)
    && is_ascii event
    && all_codes (λ c. is_alnum c || c == b'_' || c == b'.' || c == b'-') event

unfoldable pub validate_event : Value → Result String
validate_event (str event) =
    if is_event_name event then ok event else err (fatal CiCode.malformed_run)
validate_event _ = err (fatal CiCode.malformed_run)

unfoldable pub run_summary : CiInspectionPolicy → String → Value → Result RunSummary
run_summary policy source_sha row = do
  require (is_dict row) (fatal CiCode.malformed_run)
  run_id ← or_raise (positive_int (get "id" row)) (fatal CiCode.malformed_run)
  attempt ← or_raise (positive_int (get "run_attempt" row)) (fatal CiCode.malformed_run)
  require (is_own_run policy source_sha row) (fatal CiCode.foreign_run)
  require (eq_str (get "html_url" row) (run_url policy run_id)) (fatal CiCode.foreign_run)
  event ← validate_event (get "event" row)
  outcome ← validate_status (get "status" row) (get "conclusion" row) CiCode.malformed_run
  created_at ← validate_timestamp (get "created_at" row) CiCode.malformed_run
  updated_at ← validate_timestamp (get "updated_at" row) CiCode.malformed_run
  ok (record {
    id = run_id;
    attempt = attempt;
    workflow_id = policy.workflow_id;
    workflow_path = policy.workflow_path;
    event = event;
    status = outcome.0;
    conclusion = outcome.1;
    head_sha = source_sha;
    repository_id = policy.repository_id;
    head_repository_id = policy.repository_id;
    created_at = created_at;
    updated_at = updated_at;
    html_url = run_url policy run_id;
  })

abbrev pub opt_eq : Option String → Option String → Bool
opt_eq none none = true
opt_eq (some s) (some t) = str_eq s t
opt_eq _ _ = false

abbrev pub all_true : List Bool → Bool
all_true [] = true
all_true (b ∷ bs) = b && all_true bs

-- `==` of two summaries: of all their entries
unfoldable pub run_eq : RunSummary → RunSummary → Bool
run_eq a b = all_true (
    (a.id == b.id)
    ∷ (a.attempt == b.attempt)
    ∷ (a.workflow_id == b.workflow_id)
    ∷ str_eq a.workflow_path b.workflow_path
    ∷ str_eq a.event b.event
    ∷ str_eq a.status b.status
    ∷ opt_eq a.conclusion b.conclusion
    ∷ str_eq a.head_sha b.head_sha
    ∷ (a.repository_id == b.repository_id)
    ∷ (a.head_repository_id == b.head_repository_id)
    ∷ str_eq a.created_at b.created_at
    ∷ str_eq a.updated_at b.updated_at
    ∷ str_eq a.html_url b.html_url
    ∷ [])
