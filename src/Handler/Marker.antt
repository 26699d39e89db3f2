-- ===== src/Handler/Marker.antt =====
-- The first lines of the comments: `RECEIPT_MARKER_RE` and the `PUBLISHER_..._MARKER_RE` of
-- scripts/actions_request_handler.py, and the fence that follows a marker. A group of a pattern holds
-- no `=`, so that it ends at the first occurrence of the text that follows it.
use zach.Common.{
  Bool, ◌&&◌, ◌||◌, Option, none, some, List, [], ◌∷◌, String, ◌⊹◌, count, leb, ◌==◌, str_eq,
  all_codes, is_digit, is_lower, starts, split_at, drop_chars, if◌then◌else◌,
}
use zach.Python.Json.{◌>>=◌}
use zach.Journal.Record.{is_sha40, is_request_id}
use zach.Coordinator.Policy.{is_execution_id}
use zach.Dispatch.Policy.{is_sha256}

abbrev pub receipt_prefix : String
receipt_prefix = "<!-- zach-actions:receipt:v1:"

abbrev pub json_fence : String
json_fence = "```json\n"

abbrev pub end_fence : String
end_fence = "\n```\n"

-- The groups of the receipt's marker.
pub record ReceiptMarker : Type 0 where
  pub request_id : String
  pub digest : String
  pub operation : String
  pub accepted_revision : String
  pub claim_revision : String

-- `[a-z0-9_.-]{1,64}`
unfoldable pub is_operation_name : String → Bool
is_operation_name s =
    leb 1 (count s)
    && leb (count s) 64
    && all_codes (λ c. is_digit c || is_lower c || c == b'_' || c == b'.' || c == b'-') s

-- What follows a text at the start.
unfoldable pub after : String → String → Option String
after prefix s = if starts s prefix then some (drop_chars (count prefix) s) else none

-- A group that passes the test, up to the text that follows it, and what is left.
unfoldable pub group : (String → Bool) → String → String → Option (String × String)
group test follows s = split_at follows s >>= λ parts. if test parts.0 then some parts else none

-- The last group, up to the end of the comment's marker.
unfoldable pub last_group : (String → Bool) → String → Option String
last_group test s = group test " -->" s >>= λ g. if str_eq g.1 "" then some g.0 else none

unfoldable pub receipt_marker : String → Option ReceiptMarker
receipt_marker line = do
  rest ← after (receipt_prefix ⊹ "request_id=") line
  request_id ← group is_execution_id ":digest=" rest
  digest ← group is_sha256 ":op=" request_id.1
  operation ← group is_operation_name ":accepted_revision=" digest.1
  accepted ← group is_sha40 ":claim_revision=" operation.1
  claim ← last_group is_sha40 accepted.1
  some (record {
    request_id = request_id.0;
    digest = digest.0;
    operation = operation.0;
    accepted_revision = accepted.0;
    claim_revision = claim;
  })

-- The kinds of the Publisher's comments.
pub data PublisherKind : Type 0 where
  intent prepare publication published : PublisherKind

abbrev pub kind_name : PublisherKind → String
kind_name intent = "intent"
kind_name prepare = "prepare"
kind_name publication = "publication"
kind_name published = "published"

abbrev pub publisher_prefix : PublisherKind → String
publisher_prefix kind = "<!-- zach-actions:publisher-" ⊹ kind_name kind ⊹ ":v1:"

-- The groups of a Publisher's marker; that of an intent has no revisions.
pub record PublisherMarker : Type 0 where
  pub request_id : String
  pub digest : String
  pub execution_digest : String
  pub revisions : Option (String × String)

unfoldable pub intent_marker : String → Option PublisherMarker
intent_marker line = do
  rest ← after (publisher_prefix intent ⊹ "request_id=") line
  request_id ← group is_request_id ":digest=" rest
  digest ← group is_sha256 ":execution_digest=" request_id.1
  execution ← last_group is_sha256 digest.1
  some (record {
    request_id = request_id.0;
    digest = digest.0;
    execution_digest = execution;
    revisions = none;
  })

unfoldable pub bundle_marker : PublisherKind → String → Option PublisherMarker
bundle_marker kind line = do
  rest ← after (publisher_prefix kind ⊹ "request_id=") line
  request_id ← group is_request_id ":digest=" rest
  digest ← group is_sha256 ":execution_digest=" request_id.1
  execution ← group is_sha256 ":accepted_revision=" digest.1
  accepted ← group is_sha40 ":claim_revision=" execution.1
  claim ← last_group is_sha40 accepted.1
  some (record {
    request_id = request_id.0;
    digest = digest.0;
    execution_digest = execution.0;
    revisions = some (accepted.0, claim);
  })

abbrev pub publisher_marker : PublisherKind → String → Option PublisherMarker
publisher_marker intent line = intent_marker line
publisher_marker kind line = bundle_marker kind line

abbrev add_line : String → Option (List String) → Option (List String)
add_line line none = none
add_line line (some lines) = some (line ∷ lines)

-- The lines before a last "```" and an empty line.
unfoldable pub up_to_fence : List String → Option (List String)
up_to_fence [] = none
up_to_fence (a ∷ []) = none
up_to_fence (a ∷ b ∷ []) = if str_eq a "```" && str_eq b "" then some [] else none
up_to_fence (a ∷ b ∷ c ∷ lines) = add_line a (up_to_fence (b ∷ c ∷ lines))

-- `lines[2:-2]` of lines whose second is "```json" and whose last are a fence's end
unfoldable pub fenced_lines : List String → Option (List String)
fenced_lines (marker ∷ fence ∷ lines) = if str_eq fence "```json" then up_to_fence lines else none
fenced_lines _ = none

abbrev pub first_line : List String → String
first_line [] = ""
first_line (line ∷ lines) = line
