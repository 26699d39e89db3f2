-- ===== src/Handler/Handoff.antt =====
-- Hand-overs of the ledger: `_execution_digest`, `_safe_ledger_code`, `_validate_ledger_handoff` and
-- `_validate_ledger_publication` of scripts/actions_request_handler.py.
use zach.Common.{
  ℕ, Bool, true, false, not, ◌&&◌, ◌||◌, Option, none, some, List, [], ◌∷◌, String, ◌⊹◌, show,
  count, leb, ltb, ◌==◌, str_eq, all_codes, is_digit, is_lower, is_alnum, is_word, split_slash,
  split_code, if◌then◌else◌,
}
use zach.Python.Value.{Value, int, str, dict, get, eq_str, as_str}
use zach.Python.Plain.{has_exactly}
use zach.Action.{Result, ok, err, require}
use zach.Action.Error.{
  Exc, coordinator_error, ci_inspect_error, recipe_dispatch_error, handler_error,
}
use zach.Action.Codes.{coordinator_code, ci_code, recipe_code}
use zach.Action.Checks.{◌>>=◌, ◌>>◌}
use zach.Platform.{Platform}
use zach.Journal.Record.{is_sha40}
use zach.CiInspect.Policy.{positive_int}
use zach.Coordinator.Policy.{is_execution_id}
use zach.Dispatch.Policy.{is_sha256}
use zach.Handler.Bundle.{ExecutionBundle, canonical_request, validate_execution_bundle}

-- The `code` of an exception that has one as a text.
abbrev pub error_code : Exc → Option String
error_code (coordinator_error c) = some (coordinator_code c)
error_code (ci_inspect_error c retryable) = some (ci_code c)
error_code (recipe_dispatch_error c retryable ambiguous) = some (recipe_code c)
error_code (handler_error c) = some c
error_code _ = none

-- `[a-z][a-z0-9_-]{0,127}`
unfoldable pub is_ledger_code : String → Bool
is_ledger_code = is_word is_lower (λ c. is_lower c || is_digit c || c == b'_' || c == b'-') 128

unfoldable pub safe_ledger_code : Exc → String → String
safe_ledger_code e fallback = elim (error_code e) [
  | none ↦ fallback
  | some code ↦ if is_ledger_code code then code else fallback
]

module _ {B : Type 0} (p : Platform B) where
  unfoldable pub execution_digest : Value → Result String
  execution_digest (str s) =
      if is_execution_id s
      then ok (p.sha256_hex (p.encode s))
      else err (handler_error "invalid_execution_id")
  execution_digest _ = err (handler_error "invalid_execution_id")

abbrev pub handoff_keys : List String
handoff_keys =
    "stage" ∷ "producer_run_id" ∷ "producer_run_attempt" ∷ "artifact_name" ∷ "content_sha256" ∷ []

-- The dictionary `profiles`.
abbrev pub profile : Value → Option String
profile (str s) =
    if str_eq s "candidate-ready"
    then some "workspace-ledger-candidate"
    else if str_eq s "integration-observed"
    then some "workspace-integration-observation"
    else none
profile _ = none

abbrev pub is_one : Value → Bool
is_one (int n) = n == 1
is_one _ = false

-- A text that passes the test, as under `type(v) is str`.
abbrev pub text_passes : (String → Bool) → Value → Bool
text_passes test (str s) = test s
text_passes test _ = false

abbrev pub same_flag : Bool → Bool → Bool
same_flag true b = b
same_flag false b = not b

-- The tests that need the bundle.
unfoldable pub is_handoff_of : Value → ℕ → ExecutionBundle → Bool
is_handoff_of result run_id bundle =
    str_eq bundle.execution_id (show run_id ⊹ "-1")
    && eq_str bundle.operation "governance.ledger"
    && same_flag (eq_str (get "operation" (dict bundle.parameters)) "task.complete_verified")
        (eq_str (get "stage" result) "integration-observed")

unfoldable pub is_ledger_handoff : Value → Option ExecutionBundle → Bool
is_ledger_handoff result bundle =
    has_exactly handoff_keys result && elim (profile (get "stage" result)) [
      | none ↦ false
      | some name ↦ elim (positive_int (get "producer_run_id" result)) [
        | none ↦ false
        | some run_id ↦
            is_one (get "producer_run_attempt" result)
            && eq_str (get "artifact_name" result) (name ⊹ "-" ⊹ show run_id ⊹ "-1")
            && text_passes is_sha256 (get "content_sha256" result)
            && elim bundle [ none ↦ true | some b ↦ is_handoff_of result run_id b ]
      ]
    ]

-- All its refusals have one code.
unfoldable pub validate_ledger_handoff : Value → Option ExecutionBundle → Result (Unit {0})
validate_ledger_handoff result bundle =
    require (is_ledger_handoff result bundle) (handler_error "invalid_ledger_handoff")

abbrev pub are_slugs : List String → Bool
are_slugs [] = true
are_slugs (s ∷ ss) = leb 1 (count s) && all_codes (λ c. is_lower c || is_digit c) s && are_slugs ss

abbrev pub is_upper : ℕ → Bool
is_upper c = leb b'A' c && leb c b'Z'

-- `[A-Z][A-Z0-9]*`, `[0-9]{3}`, and one or more of `[a-z0-9]+`, between dashes
abbrev pub are_branch_parts : List String → Bool
are_branch_parts (project ∷ number ∷ slug ∷ slugs) =
    is_word is_upper (λ c. is_upper c || is_digit c) (count project) project
    && count number == 3
    && all_codes is_digit number
    && are_slugs (slug ∷ slugs)
are_branch_parts _ = false

-- `LEDGER_TASK_BRANCH_RE`
unfoldable pub is_task_branch : String → Bool
is_task_branch s = elim (split_slash s) [
  | task ∷ branch ∷ [] ↦ str_eq task "task" && are_branch_parts (split_code b'-' branch)
  | _ ↦ false
]

-- The pattern of `repository_full_name` in a reference.
unfoldable pub is_reference_name : String → Bool
is_reference_name s = elim (split_slash s) [
  | owner ∷ name ∷ [] ↦
      is_word is_alnum (λ c. is_alnum c || c == b'-') (count owner) owner
      && is_word (λ c. is_alnum c || c == b'_')
          (λ c. is_alnum c || c == b'_' || c == b'.' || c == b'-') (count name) name
  | _ ↦ false
]

abbrev pub publication_keys : List String
publication_keys =
    "repository_id" ∷ "repository_full_name" ∷ "branch" ∷ "base_sha" ∷ "tree_sha" ∷ "commit_sha"
    ∷ "artifact_reference" ∷ []

abbrev pub reference_keys : List String
reference_keys =
    "repository_id" ∷ "repository_full_name" ∷ "run_id" ∷ "run_attempt" ∷ "artifact_id"
    ∷ "archive_sha256" ∷ "content_sha256" ∷ []

abbrev pub is_above_zero : Value → Bool
is_above_zero (int n) = ltb 0 n
is_above_zero _ = false

abbrev pub is_number : ℕ → Value → Bool
is_number n (int m) = m == n
is_number n _ = false

unfoldable pub is_publication : Value → Bool
is_publication publication =
    has_exactly publication_keys publication
    && is_number 1260920764 (get "repository_id" publication)
    && eq_str (get "repository_full_name" publication) "shockerqt/workspace-governance"
    && text_passes is_task_branch (get "branch" publication)
    && text_passes is_sha40 (get "base_sha" publication)
    && text_passes is_sha40 (get "tree_sha" publication)
    && text_passes is_sha40 (get "commit_sha" publication)

unfoldable pub is_artifact_reference : Value → Bool
is_artifact_reference reference =
    has_exactly reference_keys reference
    && is_above_zero (get "repository_id" reference)
    && is_above_zero (get "run_id" reference)
    && is_above_zero (get "run_attempt" reference)
    && is_above_zero (get "artifact_id" reference)
    && text_passes is_reference_name (get "repository_full_name" reference)
    && text_passes is_sha256 (get "archive_sha256" reference)
    && text_passes is_sha256 (get "content_sha256" reference)

module _ {B : Type 0} (p : Platform B) where
  -- `publication["base_sha"]` is a text here.
  unfoldable pub validate_ledger_publication : ExecutionBundle → Value → Result (Unit {0})
  validate_ledger_publication bundle publication = do
    record' ← validate_execution_bundle p bundle
    require (eq_str bundle.operation "governance.ledger")
        (handler_error "publisher_publication_operation_invalid")
    require (is_publication publication) (handler_error "publisher_publication_invalid")
    request ← canonical_request p record'
    require
        (elim (as_str (get "base_sha" publication)) [
          | none ↦ false
          | some sha ↦ eq_str (get "base_sha" (get "parameters" request)) sha
        ])
        (handler_error "publisher_publication_binding_mismatch")
    require (is_artifact_reference (get "artifact_reference" publication))
        (handler_error "publisher_publication_invalid")
