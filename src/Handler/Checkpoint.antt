-- ===== src/Handler/Checkpoint.antt =====
-- `_ensure_publisher_comment`, `checkpoint_ledger_publication` and `load_ledger_publication_checkpoint`
-- of scripts/actions_request_handler.py.
use zach.Common.{
  ℕ, Bool, false, ◌&&◌, Option, none, some, List, [], ◌∷◌, String, ◌⊹◌, show, ◌==◌, if◌then◌else◌,
}
use zach.Python.Value.{Value, null, int, str, get, eq_str}
use zach.Python.Equal.{value_eq}
use zach.Python.Plain.{item, object}
use zach.Action.{Result, ok, err, Action, bind, require, or_raise, pure, lift, try, ◌>>=◌, ◌>>◌}
use zach.Action.Error.{Exc, handler_error, other_exception}
use zach.Platform.{Platform}
use zach.Journal.Api.{Transport, get_method, post_method}
use zach.Handler.Bundle.{
  TrustedReceiptPolicy, ExecutionBundle, to_dict, from_dict, text_of, validate_execution_bundle,
}
use zach.Handler.Results.{DurablePublicationCheckpoint}
use zach.Handler.Comment.{Issue, comments_path, comment_path, validate_comment_identity}
use zach.Handler.Marker.{PublisherKind, intent, publication, kind_name}
use zach.Handler.Handoff.{validate_ledger_publication}
use zach.Handler.Publisher.{
  format_publisher_comment, parse_publisher_comment, envelope_kind, not_bound, invalid_checkpoint,
}
use zach.Handler.Trusted.{Match, issue_of, matching_publisher_comments}

-- What a comment of the Publisher is about.
pub record Subject : Type 0 where
  pub issue : Issue
  pub execution_id : String
  pub request_id : String

abbrev pub duplicates : PublisherKind → Exc
duplicates kind = handler_error ("duplicate_publisher_" ⊹ kind_name kind ⊹ "s")

abbrev pub unproved_comment : Exc
unproved_comment = handler_error "publisher_comment_publication_ambiguous"

abbrev pub comment_value : String → Value
comment_value body = object (("body", str body) ∷ [])

-- What is there already: a comment with this body, none, or a reason to stop.
unfoldable pub existing_comment : PublisherKind → String → List Match → Result (Option ℕ)
existing_comment kind body [] = ok none
existing_comment kind body (m ∷ []) =
    if eq_str (get "body" m.comment) body
    then ok (some m.comment_id)
    else err (handler_error "publisher_checkpoint_conflict")
existing_comment kind body (m ∷ n ∷ ms) = err (duplicates kind)

-- What is there after a publication that failed.
unfoldable pub recovered_comment : PublisherKind → String → List Match → Result ℕ
recovered_comment kind body [] = err unproved_comment
recovered_comment kind body (m ∷ []) =
    if eq_str (get "body" m.comment) body then ok m.comment_id else err unproved_comment
recovered_comment kind body (m ∷ n ∷ ms) = err (duplicates kind)

abbrev pub publication_value : PublisherKind → ExecutionBundle → Value → Value
publication_value kind bundle published = object (
    ("schema_version", int 1)
    ∷ ("kind", str (envelope_kind kind))
    ∷ ("bundle", to_dict bundle)
    ∷ ("publication", published)
    ∷ [])

abbrev pub bundle_issue : ExecutionBundle → Issue
bundle_issue bundle = record {
  repository = bundle.repository_full_name;
  number = show bundle.issue_number;
}

module _ {B : Type 0} (p : Platform B) where
  unfoldable pub intent_subject : Value → Result Subject
  intent_subject envelope = bind (item "request_id" envelope) λ request_id.
      bind (item "execution_id" envelope) λ execution_id.
        bind (item "repository_full_name" envelope) λ repository.
          bind (item "issue_number" envelope) λ number. bind (text_of request_id) λ request.
            bind (text_of execution_id) λ execution. ok (record {
              issue = issue_of p repository number;
              execution_id = execution;
              request_id = request;
            })

  unfoldable pub bundle_subject : Value → Result Subject
  bundle_subject envelope = bind (item "bundle" envelope) λ stored.
      bind (from_dict stored) λ bundle. ok (record {
        issue = bundle_issue bundle;
        execution_id = bundle.execution_id;
        request_id = bundle.request_id;
      })

  -- The first branches of `_ensure_publisher_comment`.
  abbrev pub subject_of : PublisherKind → Value → Result Subject
  subject_of intent envelope = intent_subject envelope
  subject_of kind envelope = bundle_subject envelope

module _ {B W : Type 0} (p : Platform B) (api : Transport W) (policy : TrustedReceiptPolicy) where
  -- The block that posts a comment and reads it back.
  unfoldable pub post_comment : Issue → String → Action W ℕ
  post_comment issue body = do
    posted ← api post_method (comments_path issue) (comment_value body)
    comment_id ← lift (validate_comment_identity posted policy issue (some body))
    readback ← api get_method (comment_path issue comment_id) null
    readback_id ← lift (validate_comment_identity readback policy issue (some body))
    lift (
        require (readback_id == comment_id)
          (handler_error "publisher_comment_readback_identity_mismatch"))
    pure comment_id

  unfoldable pub matches_of : PublisherKind → Subject → Action W (List Match)
  matches_of kind subject =
      matching_publisher_comments p api policy kind subject.issue subject.execution_id
        (some subject.request_id)

  -- The handler of any exception of that block.
  unfoldable pub recover_comment : PublisherKind → Subject → String → Action W ℕ
  recover_comment kind subject body = do
    recovered ← matches_of kind subject
    lift (recovered_comment kind body recovered)

  unfoldable pub ensure_publisher_comment : PublisherKind → Value → Action W ℕ
  ensure_publisher_comment kind envelope = do
    body ← lift (format_publisher_comment p kind envelope)
    subject ← lift (subject_of p kind envelope)
    matches ← matches_of kind subject
    existing ← lift (existing_comment kind body matches)
    elim existing [
      | some comment_id ↦ pure comment_id
      | none ↦ try (post_comment subject.issue body) λ e. recover_comment kind subject body
    ]

-- One stored publication, or none.
abbrev pub single_publication : List Match → Result (Option Match)
single_publication [] = ok none
single_publication (m ∷ []) = ok (some m)
single_publication (m ∷ n ∷ ms) = err (handler_error "duplicate_publisher_publications")

abbrev pub identity_required : Exc
identity_required = handler_error "publisher_identity_required"

module _ {B : Type 0} (p : Platform B) where
  -- The end of `load_ledger_publication_checkpoint`, which parses the comment once more.
  unfoldable pub publication_checkpoint :
      ExecutionBundle → Match → Result DurablePublicationCheckpoint
  publication_checkpoint bundle m =
      bind
        (parse_publisher_comment p (get "body" m.comment) publication bundle.execution_id
          (some bundle.request_id))
        λ parsed. bind (or_raise parsed other_exception) λ envelope.
          bind (item "bundle" envelope) λ stored. bind (from_dict stored) λ recovered.
            bind (require (value_eq (to_dict recovered) (to_dict bundle)) not_bound) λ _.
              ok (record {
                bundle = recovered;
                publication = get "publication" envelope;
                comment_id = m.comment_id;
              })

  abbrev pub optional_checkpoint :
      ExecutionBundle → Option Match → Result (Option DurablePublicationCheckpoint)
  optional_checkpoint bundle none = ok none
  optional_checkpoint bundle (some m) = bind (publication_checkpoint bundle m) λ c. ok (some c)

-- What was stored is what was to be.
abbrev pub is_checkpoint : ℕ → Value → Option DurablePublicationCheckpoint → Bool
is_checkpoint comment_id stored none = false
is_checkpoint comment_id stored (some c) =
    c.comment_id == comment_id && value_eq c.publication stored

module _ {B W : Type 0} (p : Platform B) (api : Transport W)
    (publisher_policy : Option TrustedReceiptPolicy) where
  unfoldable pub load_ledger_publication_checkpoint :
      ExecutionBundle → Action W (Option DurablePublicationCheckpoint)
  load_ledger_publication_checkpoint bundle = do
    policy ← lift (or_raise publisher_policy identity_required)
    lift (validate_execution_bundle p bundle)
    lift (
        require (eq_str bundle.operation "governance.ledger")
          (handler_error "publisher_publication_operation_invalid"))
    matches ←
        matching_publisher_comments p api policy publication (bundle_issue bundle)
          bundle.execution_id (some bundle.request_id)
    found ← lift (single_publication matches)
    lift (optional_checkpoint p bundle found)

  unfoldable pub checkpoint_ledger_publication :
      ExecutionBundle → Value → Action W DurablePublicationCheckpoint
  checkpoint_ledger_publication bundle published = do
    policy ← lift (or_raise publisher_policy identity_required)
    lift (validate_ledger_publication p bundle published)
    body ←
        lift
          (format_publisher_comment p publication (publication_value publication bundle published))
    parsed ← lift (
        parse_publisher_comment p (str body) publication bundle.execution_id
          (some bundle.request_id))
    detached ← lift (or_raise parsed invalid_checkpoint)
    comment_id ← ensure_publisher_comment p api policy publication detached
    stored ← load_ledger_publication_checkpoint bundle
    lift (require (is_checkpoint comment_id (get "publication" detached) stored) unproved_comment)
    lift (or_raise stored unproved_comment)
