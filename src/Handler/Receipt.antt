-- ===== src/Handler/Receipt.antt =====
-- `_format_receipt_comment` and `_parse_receipt_comment` of scripts/actions_request_handler.py.
use zach.Common.{
  ℕ, ◌*◌, Bool, true, false, not, ◌&&◌, ◌||◌, Option, none, some, List, String, ◌⊹◌, show, count,
  leb, ◌==◌, str_eq, has_part, count_part, split_lines, join_lines, if◌then◌else◌,
}
use zach.Python.Value.{Value, int, str, is_dict, get, eq_str}
use zach.Python.Plain.{item}
use zach.Action.{Result, ok, require, or_raise}
use zach.Action.Error.{Exc, handler_error, other_exception}
use zach.Action.Checks.{◌>>=◌, ◌>>◌}
use zach.Platform.{Platform}
use zach.Handler.Bundle.{loaded, same_value}
use zach.Handler.Marker.{
  ReceiptMarker, receipt_prefix, json_fence, end_fence, receipt_marker, first_line, fenced_lines,
}
use zach.Handler.Handoff.{is_one, validate_ledger_handoff}

abbrev pub max_result_envelope_bytes : ℕ
max_result_envelope_bytes = 32 * 1024

abbrev pub max_comment_body_bytes : ℕ
max_comment_body_bytes = 64 * 1024

-- What the caller expects a receipt to be bound to; some callers do not know the revisions.
pub record ReceiptBinding : Type 0 where
  pub request_id : Value
  pub request_digest : Value
  pub operation : Value
  pub accepted_revision : Option String
  pub claim_revision : Option String

abbrev pub mismatch : Exc
mismatch = handler_error "receipt_canonical_body_mismatch"

-- `expected is None or expected == s`
abbrev pub as_expected : Option String → String → Bool
as_expected none s = true
as_expected (some expected) s = str_eq expected s

-- `1 <= len(code) <= MAX_TERMINAL_CODE_BYTES` of a text
abbrev pub is_terminal_code : Value → Bool
is_terminal_code (str s) = leb 1 (count s) && leb (count s) 128
is_terminal_code _ = false

abbrev pub is_receipt_state : Value → Bool
is_receipt_state v = eq_str v "succeeded" || eq_str v "rejected" || eq_str v "candidate_ready"

-- The hand-over that a receipt of a candidate carries.
unfoldable pub checked_handoff : ReceiptBinding → Value → Result (Unit {0})
checked_handoff binding envelope = do
  require
      (eq_str binding.operation "governance.ledger"
        && eq_str (get "terminal_code" envelope) "ledger_candidate_ready")
      (handler_error "invalid_ledger_handoff")
  validate_ledger_handoff (get "result" envelope) none

-- The tests of the envelope against the marker and what is expected.
unfoldable pub check_envelope : ReceiptBinding → ReceiptMarker → Value → Result (Unit {0})
check_envelope binding marker envelope = do
  require (is_dict envelope) (handler_error "receipt_envelope_invalid")
  require (is_one (get "schema_version" envelope)) (handler_error "receipt_version_unsupported")
  require (eq_str (get "kind" envelope) "actions.request.receipt")
      (handler_error "receipt_kind_invalid")
  require (same_value (get "request_id" envelope) binding.request_id)
      (handler_error "receipt_request_id_mismatch")
  require (same_value (get "request_digest" envelope) binding.request_digest)
      (handler_error "receipt_digest_mismatch")
  require (same_value (get "operation" envelope) binding.operation)
      (handler_error "receipt_operation_mismatch")
  require (eq_str (get "accepted_revision" envelope) marker.accepted_revision)
      (handler_error "receipt_revision_mismatch")
  require (eq_str (get "claim_revision" envelope) marker.claim_revision)
      (handler_error "receipt_revision_mismatch")
  require (is_receipt_state (get "terminal_state" envelope)) (handler_error "receipt_state_invalid")
  require
      (not (
        eq_str binding.operation "governance.ledger"
        && eq_str (get "terminal_state" envelope) "succeeded"))
      (handler_error "invalid_ledger_handoff")
  require (is_terminal_code (get "terminal_code" envelope)) (handler_error "receipt_code_invalid")
  require (is_dict (get "result" envelope)) (handler_error "receipt_result_invalid")
  if eq_str (get "terminal_state" envelope) "candidate_ready"
      then checked_handoff binding envelope
      else ok tt

-- The tests of the marker against what is expected.
unfoldable pub check_marker : ReceiptBinding → ReceiptMarker → Result (Unit {0})
check_marker binding marker = do
  require (eq_str binding.request_digest marker.digest && eq_str binding.operation marker.operation)
      (handler_error "receipt_binding_mismatch")
  require (as_expected binding.accepted_revision marker.accepted_revision)
      (handler_error "receipt_revision_mismatch")
  require (as_expected binding.claim_revision marker.claim_revision)
      (handler_error "receipt_revision_mismatch")

-- `f"{marker}\n```json\n{encoded}\n```\n"`
abbrev pub fenced : String → String → String
fenced marker encoded = marker ⊹ "\n" ⊹ json_fence ⊹ encoded ⊹ end_fence

module _ {B : Type 0} (p : Platform B) where
  -- `f"{v}"`
  unfoldable pub formatted : Value → String
  formatted (str s) = s
  formatted (int n) = show n
  formatted v = p.format v

  -- `f"{v[key]}"`
  unfoldable pub formatted_item : String → Value → Result String
  formatted_item key v = do entry ← item key v; ok (formatted entry)

  unfoldable pub receipt_marker_text : Value → Result String
  receipt_marker_text envelope = do
    request_id ← formatted_item "request_id" envelope
    digest ← formatted_item "request_digest" envelope
    operation ← formatted_item "operation" envelope
    accepted ← formatted_item "accepted_revision" envelope
    claim ← formatted_item "claim_revision" envelope
    ok (
        receipt_prefix ⊹ "request_id=" ⊹ request_id ⊹ ":digest=" ⊹ digest ⊹ ":op=" ⊹ operation
        ⊹ ":accepted_revision=" ⊹ accepted ⊹ ":claim_revision=" ⊹ claim ⊹ " -->")

  unfoldable pub format_receipt_comment : Value → Result String
  format_receipt_comment envelope = do
    envelope_json ← or_raise (p.dumps_pretty true envelope) other_exception
    require (leb (p.size (p.encode envelope_json)) max_result_envelope_bytes)
        (handler_error "result_envelope_too_large")
    marker ← receipt_marker_text envelope
    require (leb (p.size (p.encode (fenced marker envelope_json))) max_comment_body_bytes)
        (handler_error "comment_body_too_large")
    ok (fenced marker envelope_json)

  -- From the marker on, for a receipt of the request that is expected.
  unfoldable pub parse_bound :
      String → List String → ReceiptMarker → ReceiptBinding → Result (Option Value)
  parse_bound body lines marker binding = do
    check_marker binding marker
    inner ← or_raise (fenced_lines lines) mismatch
    envelope ← loaded (p.loads (join_lines inner)) (handler_error "receipt_json_invalid")
    check_envelope binding marker envelope
    canonical ← format_receipt_comment envelope
    require (str_eq body canonical) mismatch
    ok (some envelope)

  -- A body that has the prefix of a receipt.
  unfoldable pub parse_marked : String → ReceiptBinding → Result (Option Value)
  parse_marked body binding = do
    require (count_part receipt_prefix body == 1) mismatch
    require (count_part json_fence body == 1 && count_part end_fence body == 1) mismatch
    marker ← or_raise (receipt_marker (first_line (split_lines body))) mismatch
    if eq_str binding.request_id marker.request_id
        then parse_bound body (split_lines body) marker binding
        else ok none

  unfoldable pub parse_receipt_comment : Value → ReceiptBinding → Result (Option Value)
  parse_receipt_comment (str body) binding =
      if has_part receipt_prefix body then parse_marked body binding else ok none
  parse_receipt_comment _ binding = ok none
