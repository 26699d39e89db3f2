-- ===== src/CiInspect/OwnError.antt =====
-- The validators of scripts/actions_ci_inspect.py raise only its own error.
use zach.Common.{ℕ, Bool, true, false, Option, none, some, List, [], ◌∷◌, String, if◌then◌else◌}
use zach.Python.Value.{Value, bool, int, str, list, dict, Fields}
use zach.Action.{Result, ok, err, bind, require, or_raise}
use zach.Action.Error.{Exc, CiCode, ci_inspect_error}
use zach.Action.Confined.{Raises, Raises-bind, Raises-require}
use zach.Platform.{Platform}
use zach.CiInspect.Policy.{
  retryable, CiInspectionPolicy, validate_policy, as_sha40, validate_parameters, completed_with,
  validate_status,
}
use zach.CiInspect.Timestamp.{validate_timestamp}
use zach.CiInspect.Runs.{validate_event, run_summary}
use zach.CiInspect.Pages.{flag_is_unset, check_flag, total_and_items, page_items, collect_rows}
use zach.CiInspect.Jobs.{
  truncated_text, truncate_label, FailedStep, failed_step, scan_steps, step_rows, job_summary,
}
use zach.CiInspect.Inspection.{bounded_result}

-- `CiInspectError`
abbrev pub IsCiError : Exc → Type 0
IsCiError (ci_inspect_error code retryable) = Unit
IsCiError _ = ⊥

pub own_bind :
    {A B : Type 0} (r : Result A) (f : A → Result B)
    → Raises IsCiError r
    → ((a : A) → Raises IsCiError (f a))
    → Raises IsCiError (bind r f)
own_bind r f h k = Raises-bind IsCiError r f h λ a _. k a

module _ {A : Type 0} where
  pub own_or_raise :
      (o : Option A) (code : CiCode) (b : Bool)
      → Raises IsCiError (or_raise o (ci_inspect_error code b))
  unfolding or_raise
  own_or_raise none code b = tt
  own_or_raise (some a) code b = tt

  pub own_if :
      (b : Bool) (r s : Result A)
      → Raises IsCiError r
      → Raises IsCiError s
      → Raises IsCiError (if b then r else s)
  own_if true r s h k = h
  own_if false r s h k = k

pub own_require :
    (t : Bool) (code : CiCode) (b : Bool) → Raises IsCiError (require t (ci_inspect_error code b))
own_require t code b = Raises-require IsCiError t tt

pub own_err :
    (A : Type 0) (code : CiCode) (b : Bool)
    → Raises {A = A} IsCiError (err (ci_inspect_error code b))
own_err A code b = tt

pub own_ok : {A : Type 0} (a : A) → Raises IsCiError (ok a)
own_ok a = tt

pub ruleset own_rules = (own_bind, own_or_raise, own_if, own_require, own_ok, own_err)

pub completed_with-own :
    (s : String) (v : Value) (code : CiCode) → Raises IsCiError (completed_with s v code)
completed_with-own s (str c) code = search own_rules
completed_with-own s _ code = tt

pub validate_status-own :
    (s v : Value) (code : CiCode) → Raises IsCiError (validate_status s v code)
unfolding validate_status
validate_status-own (str s) v code = search (own_rules, completed_with-own) depth 10
validate_status-own _ v code = tt

pub validate_timestamp-own :
    (v : Value) (code : CiCode) → Raises IsCiError (validate_timestamp v code)
unfolding validate_timestamp
validate_timestamp-own (str s) code = search own_rules
validate_timestamp-own _ code = tt

pub validate_event-own : (v : Value) → Raises IsCiError (validate_event v)
unfolding validate_event
validate_event-own (str s) = search own_rules
validate_event-own _ = tt

pub run_summary-own :
    (policy : CiInspectionPolicy) (sha : String) (row : Value)
    → Raises IsCiError (run_summary policy sha row)
unfolding run_summary
run_summary-own policy sha row =
    search (own_rules, validate_event-own, validate_status-own, validate_timestamp-own) depth 30

pub flag_is_unset-own : (v : Value) → Raises IsCiError (flag_is_unset v)
flag_is_unset-own (bool b) = search own_rules
flag_is_unset-own _ = tt

pub check_flag-own : (key : String) (response : Fields) → Raises IsCiError (check_flag key response)
unfolding check_flag
check_flag-own key response = search (own_rules, flag_is_unset-own)

pub total_and_items-own : (total items : Value) → Raises IsCiError (total_and_items total items)
total_and_items-own (int total) (list items) = search own_rules
total_and_items-own _ _ = tt

pub page_items-own :
    (response : Value) (key : String) (expected : Option ℕ)
    → Raises IsCiError (page_items response key expected)
unfolding page_items
page_items-own (dict response) key expected =
    search (own_rules, check_flag-own, total_and_items-own) depth 20
page_items-own _ key expected = tt

pub truncated_text-own : (s : String) → Raises IsCiError (truncated_text s)
unfolding truncated_text
truncated_text-own s = search own_rules depth 12

pub truncate_label-own : (v : Value) → Raises IsCiError (truncate_label v)
unfolding truncate_label
truncate_label-own (str s) = truncated_text-own s
truncate_label-own _ = tt

pub failed_step-own :
    (n : ℕ) (name : Value) (c : Option String) → Raises IsCiError (failed_step n name c)
unfolding failed_step
failed_step-own n name none = tt
failed_step-own n name (some c) = search (own_rules, truncate_label-own)

pub scan_steps-own :
    (steps : List Value) (seen : List ℕ) (failed : List FailedStep) (cut : Bool)
    → Raises IsCiError (scan_steps steps seen failed cut)
unfolding scan_steps
scan_steps-own [] seen failed cut = tt
scan_steps-own (step ∷ steps) seen failed cut =
    let rest : (numbers : List ℕ) (found : List FailedStep) (b : Bool)
        → Raises IsCiError (scan_steps steps numbers found b) =
      λ numbers found b. scan_steps-own steps numbers found b in
    search (own_rules, validate_status-own, failed_step-own, rest) depth 20

pub step_rows-own : (v : Value) → Raises IsCiError (step_rows v)
step_rows-own (list vs) = tt
step_rows-own _ = tt

pub job_summary-own :
    (policy : CiInspectionPolicy) (sha : String) (run_id attempt : ℕ) (row : Value)
    → Raises IsCiError (job_summary policy sha run_id attempt row)
unfolding job_summary
job_summary-own policy sha run_id attempt row =
    search (own_rules, validate_status-own, truncate_label-own, step_rows-own, scan_steps-own) depth
      30

pub validate_policy-own : (policy : CiInspectionPolicy) → Raises IsCiError (validate_policy policy)
unfolding validate_policy
validate_policy-own policy = search own_rules depth 10

pub as_sha40-own : (v : Value) → Raises IsCiError (as_sha40 v)
as_sha40-own (str s) = search own_rules
as_sha40-own _ = tt

pub validate_parameters-own :
    (parameters : Value) (policy : CiInspectionPolicy)
    → Raises IsCiError (validate_parameters parameters policy)
unfolding validate_parameters
validate_parameters-own parameters policy = search (own_rules, as_sha40-own) depth 10

pub bounded_result-own :
    {B : Type 0} (p : Platform B) (v : Value) → Raises IsCiError (bounded_result p v)
unfolding bounded_result
bounded_result-own p v = search own_rules depth 10

pub collect_rows-own :
    {S : Type 0} (summarise : Value → Result S) (id_of : S → ℕ)
    → ((row : Value) → Raises IsCiError (summarise row))
    → (rows : List Value) (seen : List ℕ) (summaries : List S)
    → Raises IsCiError (collect_rows summarise id_of rows seen summaries)
unfolding collect_rows
collect_rows-own summarise id_of own [] seen summaries = tt
collect_rows-own {S} summarise id_of own (row ∷ rows) seen summaries =
    let rest : (numbers : List ℕ) (found : List S)
        → Raises IsCiError (collect_rows summarise id_of rows numbers found) =
      λ numbers found. collect_rows-own summarise id_of own rows numbers found in
    search (own_rules, own, rest) depth 10
