-- ===== src/Dispatch/Parameters.antt =====
-- `_validate_parameters`, `_bounded` and `_parse_timestamp` of scripts/actions_recipe_dispatch.py.
use zach.Common.{
  ℕ, zero, suc, ◌+◌, ◌-◌, ◌*◌, Bool, true, false, ◌&&◌, ◌||◌, Option, none, some, List, [], ◌∷◌,
  ◌++◌, String, count, ltb, leb, ◌==◌, str_eq, is_digit, is_lower, codes, show, is_word,
  if◌then◌else◌,
}
use Prim.Native.Nat.{◌/◌}
use zach.Python.Value.{
  Value, str, dict, Fields, end, field, fields_of, has_key, get, is_dict, eq_str,
}
use zach.Action.{Result, ok, err, bind, require, or_raise}
use zach.Action.Checks.{◌>>=◌, ◌>>◌}
use zach.Action.Error.{RecipeCode, other_exception}
use zach.Platform.{Platform}
use zach.Journal.Record.{is_sha40}
use zach.CiInspect.Policy.{is_member, positive_int}
use zach.CiInspect.Timestamp.{is_pair, pair_value, days_in_month}
use zach.Dispatch.Policy.{RecipeDispatchPolicy, refused, ambiguous, is_sha256, max_result_bytes}

-- `[a-z0-9][a-z0-9._-]{7,127}`
unfoldable pub is_recipe_request_id : String → Bool
is_recipe_request_id s =
    leb 8 (count s)
    && is_word (λ c. is_lower c || is_digit c)
        (λ c. is_lower c || is_digit c || c == b'.' || c == b'_' || c == b'-') 128 s

abbrev pub common_names : List String
common_names = "recipe" ∷ "operation" ∷ "source_sha" ∷ "artifact_sha256" ∷ "expected_current" ∷ []

abbrev pub deploy_names : List String
deploy_names = "artifact_run_id" ∷ "artifact_run_attempt" ∷ "artifact_id" ∷ "transport_digest" ∷ []

abbrev pub has_all : List String → Fields → Bool
has_all [] fs = true
has_all (k ∷ ks) fs = has_key k fs && has_all ks fs

abbrev pub has_only : List String → Fields → Bool
has_only ks end = true
has_only ks (field k v fs) = is_member k ks && has_only ks fs

-- `set(parameters) == names`
unfoldable pub are_names : List String → Value → Bool
are_names names (dict fs) = has_all names fs && has_only names fs
are_names names _ = false

-- The operation, if its parameters have exactly its names.
unfoldable pub checked_operation : Value → Result String
checked_operation parameters =
    if eq_str (get "operation" parameters) "deploy"
    then (bind
        (require (are_names (common_names ++ deploy_names) parameters)
          (refused RecipeCode.invalid_recipe_parameters))
        (λ _. ok "deploy"))
    else if eq_str (get "operation" parameters) "rollback"
    then (bind
        (require (are_names common_names parameters) (refused RecipeCode.invalid_recipe_parameters))
        (λ _. ok "rollback"))
    else err (refused RecipeCode.recipe_operation_not_allowed)

abbrev pub text_if : (String → Bool) → Value → Option String
text_if test (str s) = if test s then some s else none
text_if test _ = none

-- The texts that a dispatch sends.
pub record RecipeInputs : Type 0 where
  pub operation : String
  pub request_id : String
  pub source_sha : String
  pub artifact_sha256 : String
  pub expected_current : String
  -- `artifact_run_id`, `artifact_run_attempt`, `artifact_id` and `transport_digest`, of a deployment
  pub deployment : List (String × Value)
  pub request_binding : String

unfoldable pub checked_deployment : Value → Result (List (String × Value))
checked_deployment parameters = do
  run_id ←
      or_raise (positive_int (get "artifact_run_id" parameters))
        (refused RecipeCode.invalid_recipe_artifact_identity)
  run_attempt ←
      or_raise (positive_int (get "artifact_run_attempt" parameters))
        (refused RecipeCode.invalid_recipe_artifact_identity)
  artifact_id ←
      or_raise (positive_int (get "artifact_id" parameters))
        (refused RecipeCode.invalid_recipe_artifact_identity)
  transport_digest ←
      or_raise (text_if is_sha256 (get "transport_digest" parameters))
        (refused RecipeCode.invalid_recipe_transport_digest)
  ok (
      ("artifact_run_id", str (show run_id))
      ∷ ("artifact_run_attempt", str (show run_attempt))
      ∷ ("artifact_id", str (show artifact_id))
      ∷ ("transport_digest", str transport_digest)
      ∷ [])

-- The dictionary `inputs` before its binding is added.
abbrev pub unbound_inputs : RecipeInputs → List (String × Value)
unbound_inputs inputs =
    ("operation", str inputs.operation)
    ∷ ("request_id", str inputs.request_id)
    ∷ ("source_sha", str inputs.source_sha)
    ∷ ("artifact_sha256", str inputs.artifact_sha256)
    ∷ ("expected_current", str inputs.expected_current)
    ∷ inputs.deployment

unfoldable pub inputs_value : RecipeInputs → Value
inputs_value inputs =
    dict (fields_of (unbound_inputs inputs ++ ("request_binding", str inputs.request_binding) ∷ []))

module _ {B : Type 0} (p : Platform B) where
  -- `hashlib.sha256(json.dumps(inputs, ...).encode("utf-8")).hexdigest()`, of a text that JSON can write
  unfoldable pub bound_inputs : RecipeInputs → Result RecipeInputs
  bound_inputs inputs =
      bind
        (or_raise (p.dumps_strict true (dict (fields_of (unbound_inputs inputs)))) other_exception)
        λ text. ok (record {
          operation = inputs.operation;
          request_id = inputs.request_id;
          source_sha = inputs.source_sha;
          artifact_sha256 = inputs.artifact_sha256;
          expected_current = inputs.expected_current;
          deployment = inputs.deployment;
          request_binding = p.sha256_hex (p.encode text);
        })

  unfoldable pub validate_parameters : Value → RecipeDispatchPolicy → String → Result RecipeInputs
  validate_parameters parameters policy request_id = do
    require (is_dict parameters && eq_str (get "recipe" parameters) policy.recipe)
        (refused RecipeCode.recipe_not_allowed)
    require (is_recipe_request_id request_id) (refused RecipeCode.invalid_request_id)
    operation ← checked_operation parameters
    source_sha ←
        or_raise (text_if is_sha40 (get "source_sha" parameters))
          (refused RecipeCode.invalid_recipe_source)
    artifact_sha256 ←
        or_raise (text_if is_sha256 (get "artifact_sha256" parameters))
          (refused RecipeCode.invalid_recipe_artifact_digest)
    expected_current ←
        or_raise (text_if is_sha40 (get "expected_current" parameters))
          (refused RecipeCode.invalid_recipe_expected_current)
    deployment ← if str_eq operation "deploy" then checked_deployment parameters else ok []
    bound_inputs (record {
      operation = operation;
      request_id = request_id;
      source_sha = source_sha;
      artifact_sha256 = artifact_sha256;
      expected_current = expected_current;
      deployment = deployment;
      request_binding = "";
    })

  unfoldable pub bounded : Value → Result Value
  bounded result = do
    encoded ← or_raise (p.dumps_strict false result) (ambiguous RecipeCode.recipe_result_invalid)
    require (leb (p.size (p.encode encoded)) max_result_bytes)
        (ambiguous RecipeCode.recipe_result_too_large)
    ok result

-- The days of the months before `m`.
abbrev pub days_before_month : ℕ → ℕ → ℕ
days_before_month y zero = 0
days_before_month y (suc zero) = 0
days_before_month y (suc (suc m)) = days_before_month y (suc m) + days_in_month y (suc m)

-- The seconds since the first day of year 1, which `datetime` compares.
abbrev pub seconds_of : ℕ → ℕ → ℕ → ℕ → ℕ → ℕ → ℕ
seconds_of y m d h n s =
    let years = y - 1 in
    let days =
      365 * years + years / 4 - years / 100 + years / 400 + days_before_month y m + (d - 1) in
    ((days * 24 + h) * 60 + n) * 60 + s

abbrev pub is_date_time : ℕ → ℕ → ℕ → ℕ → ℕ → ℕ → Bool
is_date_time y m d h n s =
    (leb 1 y && leb 1 m && leb m 12)
    && (leb 1 d && leb d (days_in_month y m))
    && (ltb h 24 && ltb n 60 && ltb s 60)

unfoldable pub timestamp_seconds : List ℕ → Option ℕ
timestamp_seconds
      (y₁ ∷ y₂ ∷ y₃ ∷ y₄ ∷ s₁ ∷ m₁ ∷ m₂ ∷ s₂ ∷ d₁ ∷ d₂ ∷ t ∷ h₁ ∷ h₂ ∷ s₃ ∷ n₁ ∷ n₂ ∷ s₄ ∷ c₁ ∷ c₂
        ∷ z ∷ []) =
    let y = pair_value y₁ y₂ * 100 + pair_value y₃ y₄ in
    let m = pair_value m₁ m₂ in
    let d = pair_value d₁ d₂ in
    let h = pair_value h₁ h₂ in
    let n = pair_value n₁ n₂ in
    let s = pair_value c₁ c₂ in
    if (is_pair y₁ y₂
        && is_pair y₃ y₄
        && is_pair m₁ m₂
        && is_pair d₁ d₂
        && is_pair h₁ h₂
        && is_pair n₁ n₂
        && is_pair c₁ c₂)
      && (s₁ == b'-' && s₂ == b'-' && t == b'T' && s₃ == b':' && s₄ == b':' && z == b'Z')
      && is_date_time y m d h n s
    then some (seconds_of y m d h n s)
    else none
timestamp_seconds _ = none

unfoldable pub parse_timestamp : Value → Result ℕ
parse_timestamp (str value) =
    or_raise (timestamp_seconds (codes value)) (refused RecipeCode.invalid_recipe_acceptance_time)
parse_timestamp _ = err (refused RecipeCode.invalid_recipe_acceptance_time)
