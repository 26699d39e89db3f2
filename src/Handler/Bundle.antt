-- ===== src/Handler/Bundle.antt =====
-- `TrustedReceiptPolicy`, `ExecutionBundle` and `_validate_execution_bundle` of
-- scripts/actions_request_handler.py.
use zach.Common.{
  ℕ, Bool, not, ◌&&◌, str_eq, Option, List, [], ◌∷◌, String, ltb, count_code, if◌then◌else◌,
}
use zach.Python.Value.{Value, str, int, constant, dict, Fields, is_dict, get, eq_str, eq_int}
use zach.Python.Equal.{value_eq}
use zach.Python.Plain.{plain_loads, item, has_exactly, object}
use zach.Action.{Result, ok, err, require, or_raise, recode}
use zach.Action.Error.{Exc, journal_validation_error, handler_error, other_exception}
use zach.Action.Checks.{◌>>=◌, ◌>>◌}
use zach.Platform.{Platform}
use zach.Journal.Record.{is_sha40, validate_request_id, parse_and_validate_record}
use zach.CiInspect.Policy.{is_positive}
use zach.Coordinator.Policy.{is_execution_id}
use zach.Dispatch.Policy.{is_sha256}

pub record TrustedReceiptPolicy : Type 0 where
  pub app_id : ℕ
  pub bot_user_id : ℕ

-- `TrustedReceiptPolicy(app_id, bot_user_id)`
unfoldable pub receipt_policy : ℕ → ℕ → Result TrustedReceiptPolicy
receipt_policy app_id bot_user_id = do
  require (is_positive app_id) other_exception
  require (is_positive bot_user_id) other_exception
  ok (record { app_id = app_id; bot_user_id = bot_user_id })

pub record ExecutionBundle : Type 0 where
  pub request_id : String
  pub request_digest : String
  -- not tested by the constructor
  pub operation : Value
  pub repository_id : ℕ
  pub repository_full_name : String
  pub issue_id : ℕ
  pub issue_number : ℕ
  pub execution_id : String
  pub canonical_record : String
  pub accepted_revision : String
  pub claim_revision : String
  pub parameters : Fields

-- The exception of `json.loads`, or the value.
abbrev pub loaded : Option Value → Exc → Result Value
loaded raw e = or_raise (plain_loads raw) e

abbrev pub is_full_name : String → Bool
is_full_name s = ltb 0 (count_code b'/' s)

-- An `int` above 0
unfoldable pub positive : Value → Result ℕ
positive (int n) = if ltb 0 n then ok n else err other_exception
positive _ = err other_exception

-- A text that passes the test
unfoldable pub text_that : (String → Bool) → Value → Result String
text_that test (str s) = if test s then ok s else err other_exception
text_that test _ = err other_exception

unfoldable pub entries : Value → Result Fields
entries (dict fs) = ok fs
entries _ = err other_exception

abbrev pub any_text : String → Bool
any_text s = Bool.true

unfoldable pub valid_request_id : Value → Result String
valid_request_id (str s) = validate_request_id s
valid_request_id _ = err journal_validation_error

-- `ExecutionBundle(...)` with the keyword arguments `args`: the constructor and `__post_init__`.
unfoldable pub construct : Value → Result ExecutionBundle
construct args = do
  request_id ← valid_request_id (get "request_id" args)
  repository_id ← positive (get "repository_id" args)
  repository_full_name ← text_that is_full_name (get "repository_full_name" args)
  issue_id ← positive (get "issue_id" args)
  issue_number ← positive (get "issue_number" args)
  execution_id ← text_that is_execution_id (get "execution_id" args)
  accepted_revision ← text_that is_sha40 (get "accepted_revision" args)
  claim_revision ← text_that is_sha40 (get "claim_revision" args)
  request_digest ← text_that is_sha256 (get "request_digest" args)
  canonical_record ← text_that any_text (get "canonical_record" args)
  parameters ← entries (get "parameters" args)
  ok (record {
    request_id = request_id;
    request_digest = request_digest;
    operation = get "operation" args;
    repository_id = repository_id;
    repository_full_name = repository_full_name;
    issue_id = issue_id;
    issue_number = issue_number;
    execution_id = execution_id;
    canonical_record = canonical_record;
    accepted_revision = accepted_revision;
    claim_revision = claim_revision;
    parameters = parameters;
  })

unfoldable pub to_dict : ExecutionBundle → Value
to_dict bundle = object (
    ("schema_version", int 1)
    ∷ ("kind", str "actions.execution.bundle")
    ∷ ("request_id", str bundle.request_id)
    ∷ ("request_digest", str bundle.request_digest)
    ∷ ("operation", bundle.operation)
    ∷ ("repository_id", int bundle.repository_id)
    ∷ ("repository_full_name", str bundle.repository_full_name)
    ∷ ("issue_id", int bundle.issue_id)
    ∷ ("issue_number", int bundle.issue_number)
    ∷ ("execution_id", str bundle.execution_id)
    ∷ ("canonical_record", str bundle.canonical_record)
    ∷ ("accepted_revision", str bundle.accepted_revision)
    ∷ ("claim_revision", str bundle.claim_revision)
    ∷ ("parameters", dict bundle.parameters)
    ∷ [])

abbrev pub bundle_keys : List String
bundle_keys =
    "schema_version" ∷ "kind" ∷ "request_id" ∷ "request_digest" ∷ "operation" ∷ "repository_id"
    ∷ "repository_full_name" ∷ "issue_id" ∷ "issue_number" ∷ "execution_id" ∷ "canonical_record"
    ∷ "accepted_revision" ∷ "claim_revision" ∷ "parameters" ∷ []

abbrev pub invalid_bundle : Exc
invalid_bundle = handler_error "invalid_execution_bundle"

-- Under the test of the keys every argument is there; the constructor raises no other exception.
unfoldable pub from_dict : Value → Result ExecutionBundle
from_dict data' = do
  require (is_dict data') invalid_bundle
  require
      (has_exactly bundle_keys data'
        && eq_int (get "schema_version" data') 1
        && eq_str (get "kind" data') "actions.execution.bundle")
      invalid_bundle
  recode invalid_bundle (construct data')

abbrev pub bundle_fields : List String
bundle_fields =
    "request_id" ∷ "request_digest" ∷ "operation" ∷ "repository_id" ∷ "repository_full_name"
    ∷ "issue_id" ∷ "issue_number" ∷ "execution_id" ∷ []

-- `v == w` of two values by themselves: NaN is not equal to itself.
abbrev pub is_nan : Value → Bool
is_nan (constant c) = str_eq c "NaN"
is_nan _ = Bool.false

unfoldable pub same_value : Value → Value → Bool
same_value v w = not (is_nan v) && value_eq v w

-- `all(v.get(key) == w.get(key) for key in keys)`
unfoldable pub same_fields : List String → Value → Value → Bool
same_fields [] v w = Bool.true
same_fields (key ∷ keys) v w = same_value (get key v) (get key w) && same_fields keys v w

-- `v["..."]` under `json.loads` of a text, where an absent value is an exception
unfoldable pub text_of : Value → Result String
text_of v = text_that any_text v

module _ {B : Type 0} (p : Platform B) where
  unfoldable pub to_json : ExecutionBundle → Result String
  to_json bundle = or_raise (p.dumps_sorted (to_dict bundle)) other_exception

  unfoldable pub from_json : String → Result ExecutionBundle
  from_json s = do data' ← loaded (p.loads s) invalid_bundle; from_dict data'

  -- `json.loads(record["canonical_request"])`
  unfoldable pub canonical_request : Value → Result Value
  canonical_request record' = do
    stored ← item "canonical_request" record'
    text ← text_of stored
    loaded (p.loads text) other_exception

  -- The block that `_validate_execution_bundle` guards.
  unfoldable pub checked_bundle : ExecutionBundle → Result Value
  checked_bundle bundle = do
    record' ← parse_and_validate_record p bundle.canonical_record bundle.request_id
    require (same_fields bundle_fields record' (to_dict bundle)) other_exception
    request ← canonical_request record'
    require (eq_str (get "state" record') "executing") other_exception
    parameters ← item "parameters" request
    require (value_eq parameters (dict bundle.parameters)) other_exception
    ok record'

  unfoldable pub validate_execution_bundle : ExecutionBundle → Result Value
  validate_execution_bundle bundle = recode invalid_bundle (checked_bundle bundle)
