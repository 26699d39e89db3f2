-- ===== src/Handler/Binding.antt =====
-- `_verify_bundle_journal`, `load_durable_prepare_checkpoint` and `load_durable_published_receipt` of
-- scripts/actions_request_handler.py.
use zach.Common.{
  ℕ, Bool, not, ◌&&◌, Option, none, some, List, [], ◌∷◌, String, ◌⊹◌, show, str_eq, ◌==◌,
  if◌then◌else◌,
}
use zach.Python.Value.{Value, null, int, str, get, eq_str}
use zach.Python.Equal.{value_eq}
use zach.Python.Plain.{item, with_entry, without}
use zach.Action.{
  Result, ok, err, Action, bind, require, or_raise, pure, lift, raise, try, ◌>>=◌, ◌>>◌,
}
use zach.Action.Error.{handler_error, other_exception}
use zach.Platform.{Platform}
use zach.Journal.Record.{fixed_repository, validate_request_id, parse_and_validate_record}
use zach.Journal.Api.{Transport, get_method, repo_path}
use zach.Journal.Load.{load_at, load}
use zach.CiInspect.Policy.{is_positive}
use zach.Coordinator.Results.{ClaimDisposition}
use zach.Handler.Bundle.{
  TrustedReceiptPolicy, ExecutionBundle, to_dict, from_dict, same_value, validate_execution_bundle,
}
use zach.Handler.Results.{DurablePrepareCheckpoint, DurablePublishedReceipt}
use zach.Handler.Comment.{Issue, comment_url, is_trusted_comment_author, stable_comments}
use zach.Handler.Marker.{PublisherKind}
use zach.Handler.Handoff.{execution_digest}
use zach.Handler.Publisher.{parse_publisher_comment, not_bound}
use zach.Handler.Trusted.{Match, with_parsed, issue_of, matching_publisher_comments}

-- A record without the entries that change after the claim.
unfoldable pub frozen_part : Value → Value
frozen_part v = without "terminal_reference" (without "terminal_code" (without "state" v))

-- `dict(v, state="accepted", execution_id=None, terminal_code=None, terminal_reference=None)`
unfoldable pub as_accepted : Value → Value
as_accepted v = with_entry "terminal_reference" null (
    with_entry "terminal_code" null
      (with_entry "execution_id" null (with_entry "state" (str "accepted") v)))

-- `try: m except Exception: raise ActionsHandlerError(code) from None`
unfoldable pub guarded : {W A : Type 0} → Action W A → String → Action W A
guarded m code = try m λ e. raise (handler_error code)

-- The comparison of GitHub that makes `base` an ancestor of the other commit; `get` of what is no
-- dictionary has no such text, where the source raises.
unfoldable pub is_ancestry : Value → String → Bool
is_ancestry comparison base =
    eq_str (get "status" comparison) "ahead"
    && eq_str (get "sha" (get "base_commit" comparison)) base
    && eq_str (get "sha" (get "merge_base_commit" comparison)) base

module _ {B W : Type 0} (p : Platform B) (api : Transport W) where
  abbrev pub compare_path : String → String → String
  compare_path base head' = repo_path ("/compare/" ⊹ base ⊹ "..." ⊹ head')

  -- One round of the loop over the pairs of commits.
  unfoldable pub check_ancestry : String → String → Action W (Unit {0})
  check_ancestry base head' =
      if str_eq base head'
      then pure tt
      else (api get_method (compare_path base head') null >>= λ comparison.
          lift (require (is_ancestry comparison base) other_exception))

  -- `load_at` of a snapshot that holds a record
  unfoldable pub record_at : String → String → Action W String
  record_at request_id revision = do
    snapshot ← load_at p api request_id revision
    lift (or_raise snapshot.record_json other_exception)

  -- The record at the revision is that of an acceptance, and `current` came of it.
  unfoldable pub check_acceptance : String → String → Value → Action W (Unit {0})
  check_acceptance request_id stored current = do
    accepted ← lift (parse_and_validate_record p stored request_id)
    lift (require (value_eq accepted (as_accepted current)) other_exception)

  -- The block that `_verify_bundle_journal` guards.
  unfoldable pub check_revisions : ExecutionBundle → String → Value → Action W (Unit {0})
  check_revisions bundle head_sha frozen = do
    check_ancestry bundle.accepted_revision bundle.claim_revision
    check_ancestry bundle.claim_revision head_sha
    accepted ← load_at p api bundle.request_id bundle.accepted_revision
    claimed ← record_at bundle.request_id bundle.claim_revision
    lift (require (str_eq claimed bundle.canonical_record) other_exception)
    stored ← lift (or_raise accepted.record_json other_exception)
    check_acceptance bundle.request_id stored frozen

  unfoldable pub verify_bundle_journal : ExecutionBundle → String → Value → Action W (Unit {0})
  verify_bundle_journal bundle head_sha current = do
    frozen ← lift (validate_execution_bundle p bundle)
    lift (
        require (value_eq (frozen_part frozen) (frozen_part current))
          (handler_error "bundle_journal_mismatch"))
    guarded (check_revisions bundle head_sha frozen) "bundle_revision_mismatch"

-- `validate_request_id` of a request that is named
abbrev pub named_request : Option String → Result (Unit {0})
named_request none = ok tt
named_request (some request_id) = bind (validate_request_id request_id) λ _. ok tt

-- `ClaimDisposition(v)` of a disposition that has been tested
abbrev pub disposition_of : Value → ClaimDisposition
disposition_of v =
    if eq_str v "granted"
    then ClaimDisposition.granted
    else ClaimDisposition.reconciliation_required

abbrev pub single_prepare : List Match → Result Match
single_prepare [] = err (handler_error "publisher_prepare_checkpoint_not_found")
single_prepare (m ∷ []) = ok m
single_prepare (m ∷ n ∷ ms) = err (handler_error "duplicate_publisher_prepare_checkpoints")

abbrev pub workspace_id : ℕ
workspace_id = 1260920764

-- The three lists of `load_durable_published_receipt`.
pub record Found : Type 0 where
  pub prepared : List Match
  pub publications : List Match
  pub published : List Match

abbrev pub single : List Match → Result Match
single (m ∷ []) = ok m
single _ = err (handler_error "publisher_published_receipt_missing_or_conflicting")

unfoldable pub is_published_binding : ExecutionBundle → ℕ → Match → Match → Match → Bool
is_published_binding bundle issue_number prepared publication published =
    let stored = get "publication" published.envelope in
    str_eq bundle.repository_full_name fixed_repository
    && bundle.repository_id == workspace_id
    && bundle.issue_number == issue_number
    && value_eq (get "bundle" prepared.envelope) (to_dict bundle)
    && value_eq (get "bundle" publication.envelope) (to_dict bundle)
    && value_eq (get "bundle" published.envelope) (to_dict bundle)
    && value_eq (get "publication" publication.envelope) stored
    && not (same_value (get "commit_sha" stored) (get "base_sha" stored))

module _ {B W : Type 0} (p : Platform B) (api_transport : Transport W)
    (policy : TrustedReceiptPolicy) where
  unfoldable pub load_durable_prepare_checkpoint :
      Value → Value → String → Option String → Action W DurablePrepareCheckpoint
  load_durable_prepare_checkpoint repository_full_name issue_number execution_id request_id = do
    lift (execution_digest p (str execution_id))
    lift (named_request request_id)
    matches ←
        matching_publisher_comments p api_transport policy PublisherKind.prepare
          (issue_of p repository_full_name issue_number) execution_id request_id
    found ← lift (single_prepare matches)
    bundle ← lift (from_dict (get "bundle" found.envelope))
    lift (
        require
          (eq_str repository_full_name bundle.repository_full_name
            && same_value issue_number (int bundle.issue_number))
          not_bound)
    pure (record {
      disposition = disposition_of (get "disposition" found.envelope);
      bundle = bundle;
      comment_id = found.comment_id;
    })

  -- The parses of a trusted comment as each of the three kinds.
  unfoldable pub add_found : String → String → ℕ → Value → Found → Result Found
  add_found execution_id request_id id comment found = bind (parse PublisherKind.prepare) λ a.
      bind (parse PublisherKind.publication) λ b. bind (parse PublisherKind.published) λ c.
        ok (record {
          prepared = with_parsed a id comment found.prepared;
          publications = with_parsed b id comment found.publications;
          published = with_parsed c id comment found.published;
        })
    where
      parse : PublisherKind → Result (Option Value)
      parse kind =
          parse_publisher_comment p (get "body" comment) kind execution_id (some request_id)

  -- The loop over the comments, with what it has found so far.
  unfoldable pub find_kinds : Issue → String → String → List (ℕ × Value) → Found → Result Found
  find_kinds issue execution_id request_id [] found = ok found
  find_kinds issue execution_id request_id ((id, comment) ∷ comments) found =
      if is_trusted_comment_author comment policy issue
      then bind (add_found execution_id request_id id comment found)
          (λ found'. find_kinds issue execution_id request_id comments found')
      else find_kinds issue execution_id request_id comments found

  unfoldable pub terminal_record : String → Action W (String × Value)
  terminal_record request_id =
      guarded
        (load p api_transport request_id >>= λ snapshot.
          lift (or_raise snapshot.record_json other_exception) >>= λ stored.
          lift (parse_and_validate_record p stored request_id) >>= λ parsed.
          pure (snapshot.head_sha, parsed))
        "publisher_terminal_journal_invalid"

  unfoldable pub load_durable_published_receipt :
      ℕ → String → String → Action W DurablePublishedReceipt
  load_durable_published_receipt issue_number execution_id request_id = do
    lift (require (is_positive issue_number) (handler_error "invalid_issue_number"))
    lift (execution_digest p (str execution_id))
    lift (validate_request_id request_id)
    let issue : Issue = record { repository = fixed_repository; number = show issue_number }
    comments ← stable_comments api_transport issue
    found ← lift (
        find_kinds issue execution_id request_id comments
          (record { prepared = []; publications = []; published = [] }))
    prepared ← lift (single found.prepared)
    publication ← lift (single found.publications)
    published ← lift (single found.published)
    bundle ← lift (from_dict (get "bundle" published.envelope))
    lift (
        require (is_published_binding bundle issue_number prepared publication published) not_bound)
    current ← terminal_record request_id
    verify_bundle_journal p api_transport bundle current.0 current.1
    state ← lift (item "state" current.1)
    lift (
        require
          (eq_str state "succeeded"
            && eq_str (get "terminal_code" current.1) "ledger_published"
            && eq_str (get "terminal_reference" current.1) (comment_url issue published.comment_id))
          (handler_error "publisher_terminal_journal_mismatch"))
    pure (record {
      bundle = bundle;
      publication = get "publication" published.envelope;
      comment_id = published.comment_id;
      terminal_journal_sha = current.0;
    })
