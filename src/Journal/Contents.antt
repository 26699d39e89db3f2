-- ===== src/Journal/Contents.antt =====
-- The checks of scripts/actions_git_journal.py on answers of the API: the levels of a Git tree, and the
-- content of a record file.
use zach.Common.{
  ℕ, ◌*◌, Bool, true, false, not, ◌&&◌, Option, none, some, List, [], ◌∷◌, String, count, str_eq,
  leb, ◌==◌, if◌then◌else◌,
}
use zach.Python.Value.{Value, bool, int, str, list, get, is_dict, eq_str, elements}
use zach.Action.{Result, ok, err, require, or_raise}
use zach.Action.Error.{journal_error, journal_validation_error}
use zach.Action.Checks.{◌>>=◌, ◌>>◌}
use zach.Platform.{Platform, join, git_blob_sha}
use zach.Journal.Record.{max_record_bytes, validate_sha40, parse_and_validate_record}

abbrev all_dicts : List Value → Bool
all_dicts [] = true
all_dicts (v ∷ vs) = is_dict v && all_dicts vs

-- `[e for e in entries if e.get("path") == part]`
unfoldable pub entries_at : String → List Value → List Value
entries_at part [] = []
entries_at part (e ∷ es) =
    let rest = entries_at part es in if eq_str (get "path" e) part then e ∷ rest else rest

abbrev is_list : Value → Bool
is_list (list vs) = true
is_list _ = false

abbrev list_elements : Value → List Value
list_elements (list vs) = elements vs
list_elements _ = []

abbrev is_false : Value → Bool
is_false (bool b) = not b
is_false _ = false

-- The mode and type that a level must have: a directory first, then a regular file.
abbrev has_expected_kind : ℕ → Value → Bool
has_expected_kind index entry =
    if index == 0
    then eq_str (get "mode" entry) "040000" && eq_str (get "type" entry) "tree"
    else eq_str (get "mode" entry) "100644" && eq_str (get "type" entry) "blob"

unfoldable pub select_entry : ℕ → List Value → Result (Option String)
select_entry index [] = ok none
select_entry index (entry ∷ []) = do
  require (has_expected_kind index entry) journal_validation_error
  sha ← validate_sha40 (get "sha" entry)
  ok (some sha)
select_entry index (e ∷ f ∷ es) = err journal_validation_error

-- One round of the loop of `_regular_blob_sha`, after its request; `none` where the entry is missing.
unfoldable pub tree_entry : ℕ → String → Value → Result (Option String)
unfolding select_entry entries_at
tree_entry index part response = do
  require (is_dict response && is_false (get "truncated" response)) journal_validation_error
  let entries = get "tree" response
  require (is_list entries && all_dicts (list_elements entries)) journal_validation_error
  select_entry index (entries_at part (list_elements entries))

-- `type(size) is int and 0 <= size <= MAX_RECORD_BYTES`
unfoldable pub checked_size : Value → Result ℕ
checked_size (int n) = if leb n max_record_bytes then ok n else err journal_validation_error
checked_size _ = err journal_validation_error

unfoldable pub checked_text : Value → Result String
checked_text (str s) = if leb (count s) (2 * max_record_bytes) then ok s else err journal_error
checked_text _ = err journal_error

module _ {B : Type 0} (p : Platform B) where
  -- The record and its blob's name, from the answer of the contents endpoint.
  unfoldable pub checked_record : String → Option String → Value → Result (String × String)
  checked_record request_id expected_blob_sha content_resp = do
    expected ← or_raise expected_blob_sha journal_validation_error
    require (is_dict content_resp && eq_str (get "type" content_resp) "file") journal_error
    require (eq_str (get "encoding" content_resp) "base64") journal_error
    size ← checked_size (get "size" content_resp)
    raw_b64 ← checked_text (get "content" content_resp)
    raw ← or_raise (p.b64decode (join (p.split raw_b64))) journal_validation_error
    require (leb (p.size raw) max_record_bytes && p.size raw == size) journal_validation_error
    record_str ← or_raise (p.decode raw) journal_validation_error
    parse_and_validate_record p record_str request_id
    blob_sha ← validate_sha40 (get "sha" content_resp)
    require (str_eq blob_sha expected && str_eq (git_blob_sha p raw) blob_sha)
        journal_validation_error
    ok (record_str, blob_sha)
