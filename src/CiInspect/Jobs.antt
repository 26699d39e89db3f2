-- ===== src/CiInspect/Jobs.antt =====
-- `_truncate_label` and `_job_summary` of scripts/actions_ci_inspect.py.
use Prim.Native.String as Text
use text.Mathlib.Text.{is_char_boundary}
use zach.Common.{
  ℕ, zero, suc, ◌-◌, Bool, true, false, not, ◌&&◌, ◌||◌, Option, none, some, List, [], ◌∷◌, ◌++◌,
  String, ◌⊹◌, len, leb, ◌==◌, str_eq, contains, count_code, show, if◌then◌else◌,
}
use zach.Python.Value.{Value, str, list, get, is_dict, eq_str, elements}
use zach.Action.{Result, ok, err, bind, require, or_raise}
use zach.Action.Checks.{◌>>=◌, ◌>>◌}
use zach.Action.Error.{CiCode}
use zach.CiInspect.Policy.{
  CiInspectionPolicy, max_label_bytes, fatal, positive_int, same_positive_id, is_member,
  validate_status,
}
use zach.CiInspect.Runs.{run_url}

-- The loop that drops bytes from the end of the prefix until it decodes: of UTF-8 text exactly the
-- prefixes that end between two characters do.
unfoldable pub decoded_prefix : ℕ → String → Option String
decoded_prefix zero value = none
decoded_prefix (suc n) value =
    let shorter = decoded_prefix n value in
    if is_char_boundary value (suc n) then some (Text.slice value 0 (suc n)) else shorter

-- A label without NUL, cut to 160 bytes, and whether it was cut.
unfoldable pub truncated_text : String → Result (String × Bool)
truncated_text value =
    if str_eq value "" || not (count_code 0 value == 0)
    then err (fatal CiCode.malformed_job)
    else if leb (len value) max_label_bytes
    then ok (value, false)
    else bind (or_raise (decoded_prefix (max_label_bytes - 3) value) (fatal CiCode.malformed_job))
        λ prefix. ok (prefix ⊹ "…", true)

unfoldable pub truncate_label : Value → Result (String × Bool)
truncate_label (str value) = truncated_text value
truncate_label _ = err (fatal CiCode.malformed_job)

pub record FailedStep : Type 0 where
  pub number : ℕ
  pub name : String
  pub conclusion : String

-- The dictionary that `_job_summary` returns, with its flag.
pub record JobSummary : Type 0 where
  pub id : ℕ
  pub name : String
  pub status : String
  pub conclusion : Option String
  pub html_url : String
  pub failed_steps : List FailedStep
  pub labels_truncated : Bool

-- A conclusion outside `(None, "success", "neutral", "skipped")`.
abbrev pub failed_conclusion : Option String → Option String
failed_conclusion none = none
failed_conclusion (some c) =
    if is_member c ("success" ∷ "neutral" ∷ "skipped" ∷ []) then none else some c

-- The label of a step, if it failed.
unfoldable pub failed_step : ℕ → Value → Option String → Result (List FailedStep × Bool)
failed_step number name none = ok ([], false)
failed_step number name (some conclusion) = do
  label ← truncate_label name
  ok (record { number = number; name = label.0; conclusion = conclusion } ∷ [], label.1)

-- The loop over the steps, with the numbers seen, the failed steps and the flag so far.
unfoldable pub scan_steps :
    List Value → List ℕ → List FailedStep → Bool → Result (List FailedStep × Bool)
scan_steps [] seen failed truncated = ok (failed, truncated)
scan_steps (step ∷ steps) seen failed truncated = do
  require (is_dict step) (fatal CiCode.malformed_job)
  number ← or_raise (positive_int (get "number" step)) (fatal CiCode.malformed_job)
  require (not (contains number seen)) (fatal CiCode.malformed_job)
  outcome ← validate_status (get "status" step) (get "conclusion" step) CiCode.malformed_job
  found ← failed_step number (get "name" step) (failed_conclusion outcome.1)
  scan_steps steps (number ∷ seen) (failed ++ found.0) (truncated || found.1)

abbrev pub step_rows : Value → Result (List Value)
step_rows (list vs) = ok (elements vs)
step_rows _ = err (fatal CiCode.malformed_job)

abbrev pub job_url : CiInspectionPolicy → ℕ → ℕ → String
job_url policy run_id job_id = run_url policy run_id ⊹ "/job/" ⊹ show job_id

unfoldable pub job_summary : CiInspectionPolicy → String → ℕ → ℕ → Value → Result JobSummary
job_summary policy source_sha run_id attempt row = do
  require (is_dict row) (fatal CiCode.malformed_job)
  job_id ← or_raise (positive_int (get "id" row)) (fatal CiCode.malformed_job)
  require
      (same_positive_id (get "run_id" row) run_id
        && same_positive_id (get "run_attempt" row) attempt
        && eq_str (get "head_sha" row) source_sha)
      (fatal CiCode.foreign_job)
  require (eq_str (get "html_url" row) (job_url policy run_id job_id)) (fatal CiCode.foreign_job)
  outcome ← validate_status (get "status" row) (get "conclusion" row) CiCode.malformed_job
  label ← truncate_label (get "name" row)
  steps ← step_rows (get "steps" row)
  scanned ← scan_steps steps [] [] label.1
  ok (record {
    id = job_id;
    name = label.0;
    status = outcome.0;
    conclusion = outcome.1;
    html_url = job_url policy run_id job_id;
    failed_steps = scanned.0;
    labels_truncated = scanned.1;
  })

-- `labels_truncated` over the jobs of all pages.
abbrev pub any_truncated : List JobSummary → Bool
any_truncated [] = false
any_truncated (job ∷ jobs) = job.labels_truncated || any_truncated jobs
