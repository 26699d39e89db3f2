-- ===== src/CiInspect/Policy.antt =====
-- The constants, the policy and the parameters of scripts/actions_ci_inspect.py.
use zach.Common.{
  ℕ, ◌*◌, ◌-◌, ◌^◌, Bool, true, false, ◌&&◌, ◌||◌, Option, none, some, List, [], ◌∷◌, String, ltb,
  leb, ◌==◌, str_eq, is_digit, is_lower, is_alnum, is_word, split_slash, if◌then◌else◌,
}
use zach.Python.Value.{Value, null, int, str, dict, Fields, end, field, get, is_null, eq_str}
use zach.Action.{Result, ok, err, Action, bind, require, raise, try}
use zach.Action.Error.{Exc, CiCode, ci_inspect_error}
use zach.Journal.Api.{Transport, get_method}
use zach.Journal.Record.{is_sha40}

abbrev pub per_page : ℕ
per_page = 100

abbrev pub max_pages : ℕ
max_pages = 10

abbrev pub max_recent_runs : ℕ
max_recent_runs = 10

abbrev pub max_result_bytes : ℕ
max_result_bytes = 16 * 1024

abbrev pub max_label_bytes : ℕ
max_label_bytes = 160

abbrev pub max_safe_integer : ℕ
max_safe_integer = 2 ^ 53 - 1

abbrev pub fixed_workflow_path : String
fixed_workflow_path = ".github/workflows/ci.yml"

abbrev pub run_statuses : List String
run_statuses = "queued" ∷ "in_progress" ∷ "completed" ∷ "waiting" ∷ "requested" ∷ "pending" ∷ []

abbrev pub run_conclusions : List String
run_conclusions =
    "success" ∷ "failure" ∷ "neutral" ∷ "cancelled" ∷ "skipped" ∷ "timed_out" ∷ "action_required"
    ∷ "stale" ∷ "startup_failure" ∷ []

abbrev pub is_member : String → List String → Bool
is_member s [] = false
is_member s (t ∷ ts) = str_eq s t || is_member s ts

-- An error that is not safe to repeat, and one that is.
abbrev pub fatal : CiCode → Exc
fatal code = ci_inspect_error code false

abbrev pub retryable : CiCode → Exc
retryable code = ci_inspect_error code true

pub record CiInspectionPolicy : Type 0 where
  pub repository_alias : String
  pub repository_full_name : String
  pub repository_id : ℕ
  pub workflow_id : ℕ
  pub workflow_path : String

-- `_positive_int` of an `int`
abbrev pub is_positive : ℕ → Bool
is_positive n = ltb 0 n && leb n max_safe_integer

-- `_positive_int`, with the number
abbrev pub positive_int : Value → Option ℕ
positive_int (int n) = if is_positive n then some n else none
positive_int _ = none

abbrev pub same_positive_id : Value → ℕ → Bool
same_positive_id (int n) expected = is_positive n && n == expected
same_positive_id _ expected = false

unfoldable pub is_alias : String → Bool
is_alias = is_word (λ c. is_lower c || is_digit c) (λ c. is_lower c || is_digit c || c == b'-') 64

abbrev pub name_char : ℕ → Bool
name_char c = is_alnum c || c == b'_' || c == b'.' || c == b'-'

-- The two parts of `REPOSITORY_RE`.
abbrev pub is_owner_and_name : List String → Bool
is_owner_and_name (owner ∷ name ∷ []) =
    is_word is_alnum (λ c. is_alnum c || c == b'.' || c == b'-') 100 owner
    && is_word name_char name_char 100 name
is_owner_and_name _ = false

unfoldable pub is_repository : String → Bool
is_repository s = is_owner_and_name (split_slash s)

unfoldable pub validate_policy : CiInspectionPolicy → Result (Unit {0})
validate_policy policy =
    bind (require (is_alias policy.repository_alias) (fatal CiCode.invalid_policy)) λ _.
      bind (require (is_repository policy.repository_full_name) (fatal CiCode.invalid_policy)) λ _.
        bind
          (require (is_positive policy.repository_id && is_positive policy.workflow_id)
            (fatal CiCode.invalid_policy))
          λ _.
            require (str_eq policy.workflow_path fixed_workflow_path) (fatal CiCode.invalid_policy)

-- `set(parameters) == {"repository", "source_sha"}`, given distinct keys
abbrev pub are_parameter_keys : Fields → Bool
are_parameter_keys (field a u (field b v end)) =
    (str_eq a "repository" && str_eq b "source_sha")
    || (str_eq a "source_sha" && str_eq b "repository")
are_parameter_keys _ = false

abbrev pub has_parameter_keys : Value → Bool
has_parameter_keys (dict fs) = are_parameter_keys fs
has_parameter_keys _ = false

abbrev pub as_sha40 : Value → Result String
as_sha40 (str s) = if is_sha40 s then ok s else err (fatal CiCode.invalid_source_sha)
as_sha40 _ = err (fatal CiCode.invalid_source_sha)

unfoldable pub validate_parameters : Value → CiInspectionPolicy → Result String
validate_parameters parameters policy =
    bind (require (has_parameter_keys parameters) (fatal CiCode.invalid_parameters)) λ _.
      bind
        (require (eq_str (get "repository" parameters) policy.repository_alias)
          (fatal CiCode.repository_not_allowed))
        λ _. as_sha40 (get "source_sha" parameters)

abbrev pub completed_with : String → Value → CiCode → Result (String × Option String)
completed_with status (str conclusion) code =
    if is_member conclusion run_conclusions then ok (status, some conclusion) else err (fatal code)
completed_with status _ code = err (fatal code)

-- A status and the conclusion of a completed run; any other has none.
unfoldable pub validate_status : Value → Value → CiCode → Result (String × Option String)
validate_status (str status) conclusion code =
    bind (require (is_member status run_statuses) (fatal code)) λ _.
      if str_eq status "completed"
      then completed_with status conclusion code
      else bind (require (is_null conclusion) (fatal code)) λ _. ok (status, none)
validate_status _ conclusion code = err (fatal code)

module _ {W : Type 0} (api_transport : Transport W) where
  -- `_get`: a read whose failure is safe to repeat.
  unfoldable pub get_json : String → Action W Value
  get_json path =
      try (api_transport get_method path null) (λ _. raise (retryable CiCode.api_request_failed))
