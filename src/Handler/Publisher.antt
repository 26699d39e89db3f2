-- ===== src/Handler/Publisher.antt =====
-- `_format_publisher_comment` and `_parse_publisher_comment` of scripts/actions_request_handler.py.
use zach.Common.{
  ℕ, ◌*◌, Bool, true, false, ◌&&◌, ◌||◌, Option, none, some, List, [], ◌∷◌, String, ◌⊹◌, leb, ◌==◌,
  str_eq, has_part, count_part, split_lines, join_lines, if◌then◌else◌,
}
use zach.Python.Value.{Value, str, list, dict, is_dict, is_str, get, eq_str, eq_int}
use zach.Python.Plain.{item, has_exactly}
use zach.Action.{Result, ok, err, require, or_raise, recode}
use zach.Action.Error.{Exc, handler_error, other_exception}
use zach.Action.Checks.{◌>>=◌, ◌>>◌}
use zach.Platform.{Platform}
use zach.Journal.Record.{is_sha40}
use zach.Handler.Bundle.{ExecutionBundle, loaded, from_dict, validate_execution_bundle}
use zach.Handler.Marker.{
  PublisherKind, intent, prepare, publication, published, kind_name, publisher_prefix,
  PublisherMarker, json_fence, end_fence, publisher_marker, first_line, fenced_lines,
}
use zach.Handler.Handoff.{is_one, execution_digest, validate_ledger_publication}
use zach.Handler.Receipt.{as_expected, fenced, formatted_item}

abbrev pub max_publisher_checkpoint_bytes : ℕ
max_publisher_checkpoint_bytes = 64 * 1024

abbrev pub invalid_checkpoint : Exc
invalid_checkpoint = handler_error "publisher_checkpoint_invalid"

abbrev pub not_canonical : Exc
not_canonical = handler_error "publisher_checkpoint_canonical_mismatch"

abbrev pub not_bound : Exc
not_bound = handler_error "publisher_checkpoint_binding_mismatch"

abbrev pub envelope_kind : PublisherKind → String
envelope_kind kind = "actions.publisher." ⊹ kind_name kind

-- `kind in {"publication", "published"}`
abbrev pub carries_publication : PublisherKind → Bool
carries_publication publication = true
carries_publication published = true
carries_publication _ = false

abbrev pub envelope_keys : PublisherKind → List String
envelope_keys intent =
    "schema_version" ∷ "kind" ∷ "request_id" ∷ "request_digest" ∷ "operation" ∷ "repository_id"
    ∷ "repository_full_name" ∷ "issue_id" ∷ "issue_number" ∷ "execution_id" ∷ "accepted_revision"
    ∷ "policy_revision" ∷ []
envelope_keys prepare = "schema_version" ∷ "kind" ∷ "bundle" ∷ "disposition" ∷ []
envelope_keys _ = "schema_version" ∷ "kind" ∷ "bundle" ∷ "publication" ∷ []

-- A value that may be sought in a set; a list and a dictionary raise a `TypeError`.
abbrev pub is_hashable : Value → Bool
is_hashable (list vs) = false
is_hashable (dict fs) = false
is_hashable _ = true

-- `SHA40_RE.fullmatch(v)`, with an absent one as the empty text; a `TypeError` of what is no text.
-- `get` answers `None` both for an absent key and for a stored one, and both refuse.
unfoldable pub matches_sha40 : Value → Exc → Result (Unit {0})
matches_sha40 (str s) e = require (is_sha40 s) e
matches_sha40 _ e = err other_exception

-- The tests of an envelope that holds a publication, before it is written.
unfoldable pub is_publication_envelope : PublisherKind → Value → Bool
is_publication_envelope kind envelope =
    has_exactly (envelope_keys kind) envelope
    && is_one (get "schema_version" envelope)
    && eq_str (get "kind" envelope) (envelope_kind kind)
    && is_dict (get "bundle" envelope)
    && elim (get "schema_version" (get "bundle" envelope)) [ Value.int n ↦ true | _ ↦ false ]

unfoldable pub is_prepare_disposition : Value → Bool
is_prepare_disposition v = eq_str v "granted" || eq_str v "reconciliation_required"

abbrev pub same_revisions : Option (String × String) → ExecutionBundle → Bool
same_revisions none bundle = false
same_revisions (some (accepted, claim)) bundle =
    str_eq bundle.accepted_revision accepted && str_eq bundle.claim_revision claim

unfoldable pub is_bundle_marked : PublisherMarker → String → ExecutionBundle → Bool
is_bundle_marked marker execution_id bundle =
    str_eq bundle.request_id marker.request_id
    && str_eq bundle.request_digest marker.digest
    && str_eq bundle.execution_id execution_id
    && same_revisions marker.revisions bundle

module _ {B : Type 0} (p : Platform B) where
  -- `_execution_digest(v[key])`
  unfoldable pub digest_item : String → Value → Result String
  digest_item key v = do entry ← item key v; execution_digest p entry

  -- The part of the markers that all kinds share.
  unfoldable pub marker_head : PublisherKind → Value → Result String
  marker_head kind source = do
    request_id ← formatted_item p "request_id" source
    digest ← formatted_item p "request_digest" source
    execution ← digest_item "execution_id" source
    ok (
        publisher_prefix kind
        ⊹ "request_id="
        ⊹ request_id
        ⊹ ":digest="
        ⊹ digest
        ⊹ ":execution_digest="
        ⊹ execution)

  unfoldable pub bundle_marker_text : PublisherKind → Value → Result String
  bundle_marker_text kind envelope = do
    bundle ← item "bundle" envelope
    head' ← marker_head kind bundle
    accepted ← formatted_item p "accepted_revision" bundle
    claim ← formatted_item p "claim_revision" bundle
    ok (head' ⊹ ":accepted_revision=" ⊹ accepted ⊹ ":claim_revision=" ⊹ claim ⊹ " -->")

  unfoldable pub checked_publication_envelope : PublisherKind → Value → Result (Unit {0})
  checked_publication_envelope kind envelope = do
    require (is_publication_envelope kind envelope) invalid_checkpoint
    bundle ← from_dict (get "bundle" envelope)
    validate_ledger_publication p bundle (get "publication" envelope)

  -- The marker of an envelope; one with a publication is tested first.
  unfoldable pub publisher_marker_text : PublisherKind → Value → Result String
  publisher_marker_text intent envelope = do
    head' ← marker_head intent envelope
    ok (head' ⊹ " -->")
  publisher_marker_text prepare envelope = bundle_marker_text prepare envelope
  publisher_marker_text kind envelope = do
    checked_publication_envelope kind envelope
    bundle_marker_text kind envelope

  unfoldable pub format_publisher_comment : PublisherKind → Value → Result String
  format_publisher_comment kind envelope = do
    marker ← publisher_marker_text kind envelope
    encoded ← or_raise (p.dumps_pretty false envelope) other_exception
    require (leb (p.size (p.encode (fenced marker encoded))) max_publisher_checkpoint_bytes)
        (handler_error "publisher_checkpoint_too_large")
    ok (fenced marker encoded)

  -- The branch of an intent.
  unfoldable pub check_intent : PublisherMarker → String → Value → Result (Unit {0})
  check_intent marker execution_id envelope = do
    require
        (has_exactly (envelope_keys intent) envelope
          && eq_str (get "kind" envelope) (envelope_kind intent))
        invalid_checkpoint
    require
        (eq_int (get "schema_version" envelope) 1
          && eq_str (get "request_id" envelope) marker.request_id
          && eq_str (get "request_digest" envelope) marker.digest
          && eq_str (get "execution_id" envelope) execution_id
          && is_str (get "operation" envelope))
        not_bound
    matches_sha40 (get "accepted_revision" envelope) not_bound
    matches_sha40 (get "policy_revision" envelope) not_bound

  -- The disposition of a prepared one.
  unfoldable pub check_disposition : PublisherKind → Value → Result (Unit {0})
  check_disposition prepare envelope = do
    require (is_hashable (get "disposition" envelope)) other_exception
    require (is_prepare_disposition (get "disposition" envelope)) invalid_checkpoint
  check_disposition _ envelope = ok tt

  unfoldable pub check_publication : PublisherKind → ExecutionBundle → Value → Result (Unit {0})
  check_publication kind bundle envelope =
      if carries_publication kind
      then validate_ledger_publication p bundle (get "publication" envelope)
      else ok tt

  -- The branch of the other kinds.
  unfoldable pub check_bundle_envelope :
      PublisherKind → PublisherMarker → String → Value → Result (Unit {0})
  check_bundle_envelope kind marker execution_id envelope = do
    require
        (has_exactly (envelope_keys kind) envelope
          && eq_str (get "kind" envelope) (envelope_kind kind))
        invalid_checkpoint
    require (is_one (get "schema_version" envelope)) invalid_checkpoint
    check_disposition kind envelope
    bundle ← from_dict (get "bundle" envelope)
    check_publication kind bundle envelope
    recode not_bound (validate_execution_bundle p bundle)
    require (is_bundle_marked marker execution_id bundle) not_bound

  abbrev pub check_publisher_envelope :
      PublisherKind → PublisherMarker → String → Value → Result (Unit {0})
  check_publisher_envelope intent marker execution_id envelope =
      check_intent marker execution_id envelope
  check_publisher_envelope kind marker execution_id envelope =
      check_bundle_envelope kind marker execution_id envelope

  -- From the JSON on, for a comment of the execution and the request that are expected.
  unfoldable pub parse_checkpoint :
      String → List String → PublisherKind → PublisherMarker → String → Result (Option Value)
  parse_checkpoint body inner kind marker execution_id = do
    envelope ←
        loaded (p.loads (join_lines inner)) (handler_error "publisher_checkpoint_json_invalid")
    require (is_dict envelope) invalid_checkpoint
    check_publisher_envelope kind marker execution_id envelope
    canonical ← format_publisher_comment kind envelope
    require (str_eq body canonical) not_canonical
    ok (some envelope)

  -- A body that has the prefix of the kind.
  unfoldable pub parse_prefixed :
      String → PublisherKind → String → Option String → Result (Option Value)
  parse_prefixed body kind execution_id request_id = do
    require (leb (p.size (p.encode body)) max_publisher_checkpoint_bytes)
        (handler_error "publisher_checkpoint_too_large")
    require
        (count_part (publisher_prefix kind) body == 1
          && count_part json_fence body == 1
          && count_part end_fence body == 1)
        not_canonical
    inner ← or_raise (fenced_lines (split_lines body)) not_canonical
    marker ← or_raise (publisher_marker kind (first_line (split_lines body))) not_canonical
    let checked = do
      expected ← execution_digest p (str execution_id)
      if str_eq marker.execution_digest expected
          then parse_checkpoint body inner kind marker execution_id
          else ok none
    if as_expected request_id marker.request_id then checked else ok none

  unfoldable pub parse_publisher_comment :
      Value → PublisherKind → String → Option String → Result (Option Value)
  parse_publisher_comment (str body) kind execution_id request_id =
      if has_part (publisher_prefix kind) body
      then parse_prefixed body kind execution_id request_id
      else ok none
  parse_publisher_comment _ kind execution_id request_id = ok none
