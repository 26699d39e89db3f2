-- ===== src/Tests/HandlerRuns.antt =====
-- Runs of the request handler.
use zach.Common.{
  ℕ, zero, suc, ◌≡◌, refl, arith, ◌⊎◌, inl, inr, Bool, true, false, Option, none, some, List, [],
  ◌∷◌, String,
}
use zach.Python.Value.{null, Value, int, str, get}
use zach.Action.{Result, ok, err}
use zach.Handler.Bundle.{from_dict, to_dict}
use zach.Handler.Marker.{PublisherKind}
use zach.Handler.Receipt.{parse_receipt_comment}
use zach.Handler.Publisher.{parse_publisher_comment}
use zach.Handler.RoundTrip.{from_dict-to_dict}
use zach.Handler.Canonical.{IsReceipt, parse_receipt_comment-IsReceipt}
use zach.Handler.Checkpointed.{IsCheckpoint, parse_publisher_comment-IsCheckpoint}
use zach.Action.{Action}
use zach.Action.Confined.{Confined}
use zach.Journal.Api.{get_method, post_method}
use zach.Journal.Effects.{Any}
use zach.Handler.Bundle.{ExecutionBundle}
use zach.Handler.Comment.{
  comment_path, comments_path, no_comments, scan_comments_page, scan_issue_comments,
}
use zach.Handler.Trusted.{matching}
use zach.Handler.Binding.{load_durable_prepare_checkpoint, load_durable_published_receipt}
use zach.Handler.Observe.{observe_receipt}
use mathlib.Core.Path.{subst}
use zach.Handler.Effect.{ControlPhase}
use zach.Handler.Control.{execute}
use zach.Handler.Finalize.{finalize}
use zach.Handler.Reading.{
  load_durable_prepare_checkpoint-Confined, load_durable_published_receipt-Confined,
}
use zach.Handler.Quiet.{execute-Confined}
use zach.Handler.Selected.{IsSelection, matching-IsSelection}
use zach.Handler.Observed.{IsObserved, observe_receipt-IsObserved}
use zach.Python.Value.{eq_str}
use zach.Coordinator.Results.{AcceptanceResult}
use zach.Handler.Comment.{Issue}
use zach.Handler.Checkpoint.{ensure_publisher_comment}
use zach.Handler.Prepare.{prepare_durable}
use zach.Handler.Handle.{reconcile_request}
use zach.Handler.Ensured.{IsEnsured, ensure_publisher_comment-IsEnsured}
use zach.Handler.Intended.{HasIntent, prepare_durable-intended}
use zach.Handler.Unchanged.{HasReceipt, reconcile_request-observed}
use zach.Handler.Gate.{HasObserved, finalize-observed}
use zach.Handler.Listing.{Serves, scan_issue_comments-pass}
use zach.Handler.ReadBack.{HasReplay, IsPublished, execute-IsPublished}
use zach.Tests.HandlerToy.{
  sha_a, sha_b, bundle1, toy2, receipt_text, prepare_text, binding1, envelope1, envelope2, World,
  api1, policy1, issue1, repository, control1, publisher1, IsOpen, api1-IsOpen, with_receipt,
  without_comment, match1, result1, comment1,
}

from_dict-bundle : from_dict (to_dict bundle1) ≡ ok bundle1
unfolding from_dict to_dict zach.Python.Plain.has_exactly zach.Handler.Bundle.construct
    zach.Handler.Bundle.valid_request_id zach.Journal.Record.validate_request_id
    zach.Handler.Bundle.positive zach.Handler.Bundle.text_that zach.Handler.Bundle.entries
    zach.Action.bind zach.Action.require zach.Action.or_raise zach.Action.recode
    zach.Common.all_codes zach.Common.count_code zach.Journal.Record.is_request_id
    zach.Journal.Record.is_sha40 zach.Dispatch.Policy.is_sha256
    zach.Coordinator.Policy.is_execution_id
from_dict-bundle = refl

from_dict-to_dict_example : from_dict (to_dict bundle1) ≡ ok bundle1
from_dict-to_dict_example = from_dict-to_dict (to_dict bundle1) from_dict-bundle

parse_receipt-text : parse_receipt_comment toy2 (str receipt_text) binding1 ≡ ok (some envelope1)
unfolding parse_receipt_comment zach.Handler.Receipt.parse_marked zach.Handler.Receipt.parse_bound
    zach.Handler.Receipt.check_marker zach.Handler.Receipt.check_envelope
    zach.Handler.Receipt.format_receipt_comment zach.Handler.Receipt.receipt_marker_text
    zach.Handler.Receipt.formatted_item zach.Handler.Receipt.formatted zach.Python.Plain.item
    zach.Python.Plain.plain zach.Python.Plain.plain_fields zach.Python.Plain.plain_items
    zach.Handler.Bundle.same_value zach.Python.Equal.value_eq zach.Python.Equal.fields_in
    zach.Python.Equal.items_eq zach.Python.Json.◌>>=◌ zach.Handler.Marker.after
    zach.Handler.Marker.group zach.Handler.Marker.last_group zach.Handler.Marker.is_operation_name
    zach.Handler.Marker.fenced_lines zach.Handler.Marker.up_to_fence
    zach.Handler.Marker.receipt_marker zach.Handler.Marker.bundle_marker zach.Action.bind
    zach.Action.require zach.Action.or_raise zach.Action.recode zach.Common.all_codes
    zach.Common.has_part zach.Common.starts zach.Common.count_part zach.Common.split_lines
    zach.Common.split_code zach.Common.split_at zach.Common.drop_chars zach.Common.join_lines
    zach.Common.codes zach.Common.show zach.Journal.Record.is_request_id
    zach.Journal.Record.is_sha40 zach.Dispatch.Policy.is_sha256
    zach.Coordinator.Policy.is_execution_id
parse_receipt-text = refl

parse_receipt_comment-IsReceipt_example : IsReceipt toy2 receipt_text binding1 envelope1
parse_receipt_comment-IsReceipt_example =
    parse_receipt_comment-IsReceipt toy2 receipt_text binding1 parse_receipt-text

parse_publisher-text :
    parse_publisher_comment toy2 (str prepare_text) PublisherKind.prepare "run-1" (some "request-1")
    ≡ ok (some envelope2)
unfolding parse_publisher_comment zach.Handler.Publisher.parse_prefixed
    zach.Handler.Publisher.parse_checkpoint zach.Handler.Publisher.check_bundle_envelope
    zach.Handler.Publisher.check_disposition zach.Handler.Publisher.check_publication
    zach.Handler.Publisher.is_prepare_disposition zach.Handler.Publisher.is_bundle_marked
    zach.Handler.Publisher.format_publisher_comment zach.Handler.Publisher.publisher_marker_text
    zach.Handler.Publisher.bundle_marker_text zach.Handler.Publisher.marker_head
    zach.Handler.Publisher.digest_item zach.Handler.Handoff.execution_digest
    zach.Handler.Bundle.validate_execution_bundle zach.Handler.Bundle.checked_bundle
    zach.Handler.Bundle.same_fields zach.Handler.Bundle.canonical_request
    zach.Handler.Bundle.text_of zach.Journal.Record.parse_and_validate_record
    zach.Journal.Record.decoded zach.Python.Json.hooked zach.Python.Json.hooked_fields
    zach.Python.Json.hooked_items zach.Python.Json.reject_duplicate_keys
    zach.Handler.Receipt.formatted_item zach.Handler.Receipt.parse_marked
    zach.Handler.Receipt.parse_bound zach.Handler.Receipt.check_marker
    zach.Handler.Receipt.check_envelope zach.Handler.Receipt.format_receipt_comment
    zach.Handler.Receipt.receipt_marker_text zach.Handler.Receipt.formatted zach.Python.Plain.item
    zach.Python.Plain.plain zach.Python.Plain.plain_fields zach.Python.Plain.plain_items
    zach.Handler.Bundle.same_value zach.Python.Equal.value_eq zach.Python.Equal.fields_in
    zach.Python.Equal.items_eq zach.Python.Json.◌>>=◌ zach.Handler.Marker.after
    zach.Handler.Marker.group zach.Handler.Marker.last_group zach.Handler.Marker.is_operation_name
    zach.Handler.Marker.fenced_lines zach.Handler.Marker.up_to_fence
    zach.Handler.Marker.receipt_marker zach.Handler.Marker.bundle_marker from_dict to_dict
    zach.Python.Plain.has_exactly zach.Handler.Bundle.construct zach.Handler.Bundle.valid_request_id
    zach.Journal.Record.validate_request_id zach.Handler.Bundle.positive
    zach.Handler.Bundle.text_that zach.Handler.Bundle.entries zach.Action.bind zach.Action.require
    zach.Action.or_raise zach.Action.recode zach.Common.all_codes zach.Common.count_code
    zach.Common.has_part zach.Common.starts zach.Common.count_part zach.Common.split_lines
    zach.Common.split_code zach.Common.split_at zach.Common.drop_chars zach.Common.join_lines
    zach.Common.codes zach.Common.show zach.Journal.Record.is_request_id
    zach.Journal.Record.is_sha40 zach.Dispatch.Policy.is_sha256
    zach.Coordinator.Policy.is_execution_id
parse_publisher-text = refl

parse_publisher_comment-IsCheckpoint_example :
    IsCheckpoint toy2 prepare_text PublisherKind.prepare "run-1" (some "request-1") envelope2
parse_publisher_comment-IsCheckpoint_example =
    parse_publisher_comment-IsCheckpoint toy2 prepare_text PublisherKind.prepare "run-1"
      (some "request-1") parse_publisher-text

load_durable_prepare_checkpoint-Confined_example :
    IsOpen
      (load_durable_prepare_checkpoint toy2 api1 policy1
        (str repository)
        (int 7)
        "run-1"
        (some "request-1")
        with_receipt).1
load_durable_prepare_checkpoint-Confined_example =
    (load_durable_prepare_checkpoint-Confined toy2 api1 IsOpen (api1-IsOpen get_method) policy1
        (str repository) (int 7) "run-1" (some "request-1")).keeps
      with_receipt refl

load_durable_published_receipt-Confined_example :
    Confined IsOpen Any (load_durable_published_receipt toy2 api1 policy1 7 "run-1" "request-1")
load_durable_published_receipt-Confined_example =
    load_durable_published_receipt-Confined toy2 api1 IsOpen (api1-IsOpen get_method) policy1 7
      "run-1" "request-1"

-- A builder of ledger candidates that reads the issue's comment.
build_candidate : ExecutionBundle → Action World Value
build_candidate bundle w = api1 get_method (comment_path issue1 5) null w

abbrev control2 : ControlPhase World
control2 = record {
  api_transport = api1;
  trusted_receipt_policy = policy1;
  ci_policy = none;
  recipe_policy = none;
  ledger_candidate = some build_candidate;
}

candidates2 :
    (candidate : ExecutionBundle → Action World Value) (bundle : ExecutionBundle)
    → control2.ledger_candidate ≡ some candidate
    → Confined IsOpen Any (candidate bundle)
unfolding build_candidate
candidates2 candidate bundle h =
    subst (λ (c : ExecutionBundle → Action World Value). Confined IsOpen Any (c bundle))
      (some_same h) (api1-IsOpen get_method (comment_path issue1 5) null)
  where
    some_same :
        {f g : ExecutionBundle → Action World Value}
        → ◌≡◌ {A = Option (ExecutionBundle → Action World Value)} (some f) (some g)
        → f ≡ g
    some_same e = cc

abbrev ledger_bundle : ExecutionBundle
ledger_bundle = record {
  request_id = bundle1.request_id;
  request_digest = bundle1.request_digest;
  operation = str "governance.ledger";
  repository_id = bundle1.repository_id;
  repository_full_name = bundle1.repository_full_name;
  issue_id = bundle1.issue_id;
  issue_number = bundle1.issue_number;
  execution_id = bundle1.execution_id;
  canonical_record = bundle1.canonical_record;
  accepted_revision = bundle1.accepted_revision;
  claim_revision = bundle1.claim_revision;
  parameters = bundle1.parameters;
}

execute-Confined_example : Confined IsOpen Any (execute toy2 control2 false ledger_bundle)
execute-Confined_example =
    execute-Confined toy2 control2 IsOpen (api1-IsOpen get_method)
      (λ issue body. api1-IsOpen post_method (comments_path issue) body) candidates2 false
      ledger_bundle (inr refl)

abbrev comments1 : List (ℕ × Value)
comments1 = (5, comment1 (str receipt_text)) ∷ (6, comment1 (str "hello")) ∷ []

abbrev parse1 : Value → Result (Option Value)
parse1 body = parse_receipt_comment toy2 body binding1

matching-run : matching policy1 issue1 parse1 comments1 ≡ ok (match1 ∷ [])
unfolding zach.Handler.Comment.is_trusted_comment_author
    zach.Handler.Comment.validate_comment_identity zach.Handler.Comment.comment_id
    zach.Handler.Comment.scan_issue_comments zach.Handler.Comment.scan_comment_pages
    zach.Handler.Comment.scan_comments_page zach.Handler.Comment.page_items
    zach.Handler.Comment.stable_comments zach.Action.◌>>=◌ zach.Action.try matching
    zach.Handler.Observe.candidates zach.Handler.Observe.single_receipt
    zach.Handler.Receipt.parse_receipt_comment zach.Handler.Receipt.parse_marked
    zach.Handler.Receipt.parse_bound zach.Handler.Receipt.check_marker
    zach.Handler.Receipt.check_envelope zach.Handler.Receipt.format_receipt_comment
    zach.Handler.Receipt.receipt_marker_text zach.Handler.Receipt.formatted_item
    zach.Handler.Receipt.formatted zach.Python.Plain.item zach.Python.Plain.plain
    zach.Python.Plain.plain_fields zach.Python.Plain.plain_items zach.Handler.Bundle.same_value
    zach.Python.Equal.value_eq zach.Python.Equal.fields_in zach.Python.Equal.items_eq
    zach.Python.Json.◌>>=◌ zach.Handler.Marker.after zach.Handler.Marker.group
    zach.Handler.Marker.last_group zach.Handler.Marker.is_operation_name
    zach.Handler.Marker.fenced_lines zach.Handler.Marker.up_to_fence
    zach.Handler.Marker.receipt_marker zach.Handler.Marker.bundle_marker zach.Action.bind
    zach.Action.require zach.Action.or_raise zach.Action.recode zach.Common.all_codes
    zach.Common.has_part zach.Common.starts zach.Common.count_part zach.Common.split_lines
    zach.Common.split_code zach.Common.split_at zach.Common.drop_chars zach.Common.join_lines
    zach.Common.codes zach.Common.show zach.Journal.Record.is_request_id
    zach.Journal.Record.is_sha40 zach.Dispatch.Policy.is_sha256
    zach.Coordinator.Policy.is_execution_id
matching-run = refl

matching-IsSelection_example : IsSelection policy1 issue1 parse1 comments1 (match1 ∷ [])
matching-IsSelection_example = matching-IsSelection policy1 issue1 parse1 comments1 matching-run

observe_receipt-run :
    observe_receipt toy2 api1 policy1 issue1 binding1 with_receipt
    ≡ (ok (some match1), with_receipt)
unfolding observe_receipt zach.Handler.Comment.is_trusted_comment_author
    zach.Handler.Comment.validate_comment_identity zach.Handler.Comment.comment_id
    zach.Handler.Comment.scan_issue_comments zach.Handler.Comment.scan_comment_pages
    zach.Handler.Comment.scan_comments_page zach.Handler.Comment.page_items
    zach.Handler.Comment.stable_comments zach.Action.◌>>=◌ zach.Action.try matching
    zach.Handler.Observe.candidates zach.Handler.Observe.single_receipt
    zach.Handler.Receipt.parse_receipt_comment zach.Handler.Receipt.parse_marked
    zach.Handler.Receipt.parse_bound zach.Handler.Receipt.check_marker
    zach.Handler.Receipt.check_envelope zach.Handler.Receipt.format_receipt_comment
    zach.Handler.Receipt.receipt_marker_text zach.Handler.Receipt.formatted_item
    zach.Handler.Receipt.formatted zach.Python.Plain.item zach.Python.Plain.plain
    zach.Python.Plain.plain_fields zach.Python.Plain.plain_items zach.Handler.Bundle.same_value
    zach.Python.Equal.value_eq zach.Python.Equal.fields_in zach.Python.Equal.items_eq
    zach.Python.Json.◌>>=◌ zach.Handler.Marker.after zach.Handler.Marker.group
    zach.Handler.Marker.last_group zach.Handler.Marker.is_operation_name
    zach.Handler.Marker.fenced_lines zach.Handler.Marker.up_to_fence
    zach.Handler.Marker.receipt_marker zach.Handler.Marker.bundle_marker zach.Action.bind
    zach.Action.require zach.Action.or_raise zach.Action.recode zach.Common.all_codes
    zach.Common.has_part zach.Common.starts zach.Common.count_part zach.Common.split_lines
    zach.Common.split_code zach.Common.split_at zach.Common.drop_chars zach.Common.join_lines
    zach.Common.codes zach.Common.show zach.Journal.Record.is_request_id
    zach.Journal.Record.is_sha40 zach.Dispatch.Policy.is_sha256
    zach.Coordinator.Policy.is_execution_id
observe_receipt-run = refl

observe_receipt-IsObserved_example :
    IsObserved toy2 api1 policy1 issue1 binding1 match1 with_receipt with_receipt
observe_receipt-IsObserved_example =
    observe_receipt-IsObserved toy2 api1 policy1 issue1 binding1 with_receipt observe_receipt-run

marks1 : Confined IsOpen Any (publisher1.coordinator.mark_ambiguous "request-1" "run-1")
marks1 = record { keeps = λ w h. h; raises = λ w h. tt }

loads1 : Confined IsOpen Any (publisher1.coordinator.load_record "request-1")
loads1 = record { keeps = λ w h. h; raises = λ w h. tt }

finalize-observed_example :
    IsOpen (finalize toy2 publisher1 bundle1 none with_receipt).1
    ⊎ HasObserved toy2 publisher1 bundle1 IsOpen (api1-IsOpen get_method) marks1
finalize-observed_example =
    finalize-observed toy2 publisher1 bundle1 IsOpen (api1-IsOpen get_method) marks1 loads1 none
      with_receipt refl

serves1 : Serves api1 issue1 (comment1 (str "hello") ∷ []) (str "hello", false)
unfolding zach.Common.show
serves1 zero h = refl
serves1 (suc k) h = absurd (omega arith)

scan_issue_comments-pass_example :
    scan_issue_comments api1 issue1 (str "hello", false)
    ≡ (scan_comments_page (comment1 (str "hello") ∷ []) no_comments, (str "hello", false))
scan_issue_comments-pass_example =
    scan_issue_comments-pass api1 issue1 (comment1 (str "hello") ∷ []) (str "hello", false) serves1
      (omega arith)

execute-run : execute toy2 control1 false bundle1 without_comment ≡ (ok result1, with_receipt)
unfolding execute zach.Handler.Effect.perform_effect zach.Handler.Effect.candidate_effect
    zach.Handler.Effect.unsupported_effect zach.Handler.Control.finish_effect
    zach.Handler.Control.publish_outcome zach.Handler.Control.unless_replayed
    zach.Handler.Control.or_replay zach.Handler.Control.publish_receipt
    zach.Handler.Control.requested zach.Handler.Control.or_ambiguous
    zach.Handler.Control.with_identity zach.Handler.Control.read_back
    zach.Handler.Control.published_result zach.Handler.Effect.receipt_envelope
    zach.Handler.Bundle.validate_execution_bundle zach.Handler.Bundle.checked_bundle
    zach.Handler.Bundle.same_fields zach.Handler.Bundle.canonical_request
    zach.Handler.Bundle.text_of zach.Handler.Bundle.text_that zach.Handler.Bundle.to_dict
    zach.Journal.Record.parse_and_validate_record zach.Journal.Record.decoded
    zach.Python.Json.hooked zach.Python.Json.hooked_fields zach.Python.Json.hooked_items
    zach.Python.Json.reject_duplicate_keys zach.Handler.Comment.is_trusted_comment_author
    zach.Handler.Comment.validate_comment_identity zach.Handler.Comment.comment_id
    zach.Handler.Comment.scan_issue_comments zach.Handler.Comment.scan_comment_pages
    zach.Handler.Comment.scan_comments_page zach.Handler.Comment.page_items
    zach.Handler.Comment.stable_comments zach.Action.◌>>=◌ zach.Action.try matching
    zach.Handler.Observe.candidates zach.Handler.Observe.single_receipt
    zach.Handler.Receipt.parse_receipt_comment zach.Handler.Receipt.parse_marked
    zach.Handler.Receipt.parse_bound zach.Handler.Receipt.check_marker
    zach.Handler.Receipt.check_envelope zach.Handler.Receipt.format_receipt_comment
    zach.Handler.Receipt.receipt_marker_text zach.Handler.Receipt.formatted_item
    zach.Handler.Receipt.formatted zach.Python.Plain.item zach.Python.Plain.plain
    zach.Python.Plain.plain_fields zach.Python.Plain.plain_items zach.Handler.Bundle.same_value
    zach.Python.Equal.value_eq zach.Python.Equal.fields_in zach.Python.Equal.items_eq
    zach.Python.Json.◌>>=◌ zach.Handler.Marker.after zach.Handler.Marker.group
    zach.Handler.Marker.last_group zach.Handler.Marker.is_operation_name
    zach.Handler.Marker.fenced_lines zach.Handler.Marker.up_to_fence
    zach.Handler.Marker.receipt_marker zach.Handler.Marker.bundle_marker zach.Action.bind
    zach.Action.require zach.Action.or_raise zach.Action.recode zach.Common.all_codes
    zach.Common.has_part zach.Common.starts zach.Common.count_part zach.Common.split_lines
    zach.Common.split_code zach.Common.split_at zach.Common.drop_chars zach.Common.join_lines
    zach.Common.codes zach.Common.show zach.Journal.Record.is_request_id
    zach.Journal.Record.is_sha40 zach.Dispatch.Policy.is_sha256
    zach.Coordinator.Policy.is_execution_id
execute-run = refl

execute-IsPublished_example :
    HasReplay toy2 control1 bundle1 result1 ⊎ IsPublished toy2 control1 bundle1 result1 with_receipt
execute-IsPublished_example =
    execute-IsPublished toy2 control1 bundle1 false without_comment execute-run refl

abbrev with_prepare : World
with_prepare = (str prepare_text, false)

ensure_publisher_comment-run :
    ensure_publisher_comment toy2 api1 policy1 PublisherKind.prepare envelope2 without_comment
    ≡ (ok 5, with_prepare)
unfolding ensure_publisher_comment zach.Handler.Checkpoint.post_comment
    zach.Handler.Checkpoint.matches_of zach.Handler.Checkpoint.recover_comment
    zach.Handler.Checkpoint.bundle_subject zach.Handler.Checkpoint.existing_comment
    zach.Handler.Trusted.matching_publisher_comments zach.Handler.Trusted.matching
    parse_publisher_comment zach.Handler.Publisher.parse_prefixed
    zach.Handler.Publisher.parse_checkpoint zach.Handler.Publisher.check_bundle_envelope
    zach.Handler.Publisher.check_disposition zach.Handler.Publisher.check_publication
    zach.Handler.Publisher.is_prepare_disposition zach.Handler.Publisher.is_bundle_marked
    zach.Handler.Publisher.format_publisher_comment zach.Handler.Publisher.publisher_marker_text
    zach.Handler.Publisher.bundle_marker_text zach.Handler.Publisher.marker_head
    zach.Handler.Publisher.digest_item zach.Handler.Handoff.execution_digest
    zach.Handler.Bundle.validate_execution_bundle zach.Handler.Bundle.checked_bundle
    zach.Handler.Bundle.same_fields zach.Handler.Bundle.canonical_request
    zach.Handler.Bundle.text_of zach.Journal.Record.parse_and_validate_record
    zach.Journal.Record.decoded zach.Python.Json.hooked zach.Python.Json.hooked_fields
    zach.Python.Json.hooked_items zach.Python.Json.reject_duplicate_keys from_dict to_dict
    zach.Python.Plain.has_exactly zach.Handler.Bundle.construct zach.Handler.Bundle.valid_request_id
    zach.Journal.Record.validate_request_id zach.Handler.Bundle.positive
    zach.Handler.Bundle.text_that zach.Handler.Bundle.entries
    zach.Handler.Comment.is_trusted_comment_author zach.Handler.Comment.validate_comment_identity
    zach.Handler.Comment.comment_id zach.Handler.Comment.scan_issue_comments
    zach.Handler.Comment.scan_comment_pages zach.Handler.Comment.scan_comments_page
    zach.Handler.Comment.page_items zach.Handler.Comment.stable_comments zach.Action.◌>>=◌
    zach.Action.try zach.Common.all_codes zach.Common.count_code
    zach.Handler.Receipt.parse_receipt_comment zach.Handler.Receipt.parse_marked
    zach.Handler.Receipt.parse_bound zach.Handler.Receipt.check_marker
    zach.Handler.Receipt.check_envelope zach.Handler.Receipt.format_receipt_comment
    zach.Handler.Receipt.receipt_marker_text zach.Handler.Receipt.formatted_item
    zach.Handler.Receipt.formatted zach.Python.Plain.item zach.Python.Plain.plain
    zach.Python.Plain.plain_fields zach.Python.Plain.plain_items zach.Handler.Bundle.same_value
    zach.Python.Equal.value_eq zach.Python.Equal.fields_in zach.Python.Equal.items_eq
    zach.Python.Json.◌>>=◌ zach.Handler.Marker.after zach.Handler.Marker.group
    zach.Handler.Marker.last_group zach.Handler.Marker.is_operation_name
    zach.Handler.Marker.fenced_lines zach.Handler.Marker.up_to_fence
    zach.Handler.Marker.receipt_marker zach.Handler.Marker.bundle_marker zach.Action.bind
    zach.Action.require zach.Action.or_raise zach.Action.recode zach.Common.has_part
    zach.Common.starts zach.Common.count_part zach.Common.split_lines zach.Common.split_code
    zach.Common.split_at zach.Common.drop_chars zach.Common.join_lines zach.Common.codes
    zach.Common.show zach.Journal.Record.is_request_id zach.Journal.Record.is_sha40
    zach.Dispatch.Policy.is_sha256 zach.Coordinator.Policy.is_execution_id
ensure_publisher_comment-run = refl

ensure_publisher_comment-IsEnsured_example :
    IsEnsured toy2 api1 policy1 PublisherKind.prepare envelope2 5
ensure_publisher_comment-IsEnsured_example =
    ensure_publisher_comment-IsEnsured toy2 api1 policy1 PublisherKind.prepare envelope2
      without_comment ensure_publisher_comment-run

acceptance1 : AcceptanceResult
acceptance1 = record {
  request_id = "request-1";
  durable_revision = sha_a;
  record_json = "R";
  replayed = false;
}

comments_open :
    (issue : Issue) (body : Value)
    → Confined IsOpen Any (api1 post_method (comments_path issue) body)
comments_open issue body = api1-IsOpen post_method (comments_path issue) body

prepare_durable-intended_example :
    IsOpen (prepare_durable toy2 publisher1 policy1 acceptance1 "run-1" without_comment).1
    ⊎ HasIntent toy2 publisher1 policy1 IsOpen
        (api1-IsOpen get_method)
        comments_open
        acceptance1
        "run-1"
prepare_durable-intended_example =
    prepare_durable-intended toy2 publisher1 policy1 IsOpen (api1-IsOpen get_method) comments_open
      acceptance1 "run-1" without_comment refl

reconcile_request-observed_example :
    IsOpen
      (reconcile_request toy2 publisher1 "request-1" none (some sha_a) (some sha_b) with_receipt).1
    ⊎ ((head : String) × (current : Value) × ((publisher1.coordinator.load_record "request-1"
            with_receipt).0
          ≡ ok (head, current))
        × (eq_str (get "state" current) "ambiguous" ≡ true)
        × HasReceipt toy2 publisher1 IsOpen
            (api1-IsOpen get_method)
            (some sha_a)
            (some sha_b)
            current)
reconcile_request-observed_example =
    reconcile_request-observed toy2 publisher1 IsOpen (api1-IsOpen get_method) "request-1" none
      (some sha_a) (some sha_b) loads1 with_receipt refl
