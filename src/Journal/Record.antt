-- ===== src/Journal/Record.antt =====
-- Validation of names and records: the module-level functions of scripts/actions_git_journal.py.
use zach.Common.{
  ℕ, ◌*◌, Bool, false, ◌&&◌, ◌||◌, Option, none, some, String, ◌⊹◌, count, leb, ◌==◌, all_codes,
  is_lower_hex, is_alnum, if◌then◌else◌,
}
use zach.Python.Value.{Value, str, get, is_dict, eq_str}
use zach.Python.Json.{hooked}
use zach.Action.{Result, ok, err, require}
use zach.Action.Error.{journal_validation_error}
use zach.Action.Checks.{◌>>=◌, ◌>>◌}
use zach.Platform.{Platform}

abbrev pub fixed_repository : String
fixed_repository = "shockerqt/workspace-governance"

abbrev pub fixed_ref : String
fixed_ref = "heads/automation/requests"

abbrev pub max_record_bytes : ℕ
max_record_bytes = 64 * 1024

-- A frozen view of the ref, its commit's tree and the record of one request.
pub record JournalSnapshot : Type 0 where
  pub head_sha : String
  pub tree_sha : String
  pub record_json : Option String
  pub record_blob_sha : Option String

pub record PublicationReceipt : Type 0 where
  pub commit_sha : String
  pub tree_sha : String
  pub replayed : Bool

unfoldable pub is_sha40 : String → Bool
is_sha40 s = count s == 40 && all_codes is_lower_hex s

unfoldable pub is_request_id : String → Bool
is_request_id s =
    leb 8 (count s) && leb (count s) 128 && all_codes (λ c. is_alnum c || c == b'_' || c == b'-') s

unfoldable pub validate_sha40 : Value → Result String
validate_sha40 (str s) = if is_sha40 s then ok s else err journal_validation_error
validate_sha40 _ = err journal_validation_error

unfoldable pub validate_request_id : String → Result String
validate_request_id s = if is_request_id s then ok s else err journal_validation_error

-- `loads` with the hook that refuses a repeated key; any exception becomes one of validation.
unfoldable pub decoded : Bool → Option Value → Result Value
decoded strict none = err journal_validation_error
decoded strict (some raw) = elim (hooked strict raw) [
  | none ↦ err journal_validation_error
  | some v ↦ ok v
]

module _ {B : Type 0} (p : Platform B) where
  unfoldable pub record_path_for_request_id : String → Result String
  record_path_for_request_id request_id = do
    validate_request_id request_id
    ok ("requests/" ⊹ p.sha256_hex (p.encode request_id) ⊹ ".json")

  unfoldable pub parse_and_validate_record : String → String → Result Value
  parse_and_validate_record content expected_request_id = do
    require (leb (p.size (p.encode content)) max_record_bytes) journal_validation_error
    parsed ← decoded false (p.loads content)
    require (is_dict parsed) journal_validation_error
    require (eq_str (get "request_id" parsed) expected_request_id) journal_validation_error
    ok parsed

unfoldable pub extract_ref_sha : Value → Value
extract_ref_sha ref_resp =
    let obj = get "object" ref_resp in if is_dict obj then get "sha" obj else get "sha" ref_resp

unfoldable pub extract_tree_sha : Value → Value
extract_tree_sha commit_resp =
    let tree_obj = get "tree" commit_resp in
    if is_dict tree_obj then get "sha" tree_obj else tree_obj
