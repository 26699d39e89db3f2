-- ===== src/Handler/Reading.antt =====
-- Which parts of scripts/actions_request_handler.py only read.
use zach.Common.{ℕ, zero, suc, Option, String}
use zach.Python.Value.{Value}
use zach.Action.{Action}
use zach.Action.Confined.{Confined}
use zach.Platform.{Platform}
use zach.Journal.Api.{Transport, get_method}
use zach.Journal.Effects.{Any, KeptBy, Any-raise, any_rules, load_at-Confined, load-Confined}
use zach.Handler.Bundle.{TrustedReceiptPolicy, ExecutionBundle}
use zach.Handler.Comment.{
  Issue, CommentScan, scan_comment_pages, scan_issue_comments, stable_comments,
}
use zach.Handler.Marker.{PublisherKind}
use zach.Handler.Receipt.{ReceiptBinding}
use zach.Handler.Trusted.{matching_publisher_comments}
use zach.Handler.Binding.{
  guarded, check_ancestry, record_at, check_acceptance, check_revisions, verify_bundle_journal,
  load_durable_prepare_checkpoint, terminal_record, load_durable_published_receipt,
}
use zach.Handler.Observe.{observe_receipt, existing_receipt}

module _ {W A : Type 0} (P : W → Type 0) where
  pub guarded-Confined :
      (m : Action W A) (code : String) → Confined P Any m → Confined P Any (guarded m code)
  unfolding guarded
  guarded-Confined m code h = search (any_rules, h)

module _ {W : Type 0} (api : Transport W) (P : W → Type 0) (gets : KeptBy P api get_method) where
  scan_comment_pages-Confined :
      (issue : Issue) (left page : ℕ) (scan : CommentScan)
      → Confined P Any (scan_comment_pages api issue left page scan)
  unfolding scan_comment_pages
  scan_comment_pages-Confined issue zero page scan = Any-raise _
  scan_comment_pages-Confined issue (suc left) page scan =
      let rest : (page' : ℕ) (scan' : CommentScan)
          → Confined P Any (scan_comment_pages api issue left page' scan') =
        λ page' scan'. scan_comment_pages-Confined issue left page' scan' in
      search (any_rules, gets, rest) depth 14

  scan_issue_comments-Confined : (issue : Issue) → Confined P Any (scan_issue_comments api issue)
  unfolding scan_issue_comments
  scan_issue_comments-Confined issue = scan_comment_pages-Confined _ _ _ _

  pub stable_comments-Confined : (issue : Issue) → Confined P Any (stable_comments api issue)
  unfolding stable_comments
  stable_comments-Confined issue = search (any_rules, scan_issue_comments-Confined) depth 12

module _ {B W : Type 0} (p : Platform B) (api : Transport W) (P : W → Type 0)
    (gets : KeptBy P api get_method) where
  pub matching_publisher_comments-Confined :
      (policy : TrustedReceiptPolicy) (kind : PublisherKind) (issue : Issue) (execution_id : String)
      (request_id : Option String)
      → Confined P Any (matching_publisher_comments p api policy kind issue execution_id request_id)
  unfolding matching_publisher_comments
  matching_publisher_comments-Confined policy kind issue execution_id request_id =
      search (any_rules, stable_comments-Confined api P gets) depth 8

  check_ancestry-Confined : (a b : String) → Confined P Any (check_ancestry p api a b)
  unfolding check_ancestry
  check_ancestry-Confined a b = search (any_rules, gets) depth 8

  pub record_at-Confined : (a b : String) → Confined P Any (record_at p api a b)
  unfolding record_at
  record_at-Confined a b = search (any_rules, load_at-Confined p api P gets) depth 8

  pub check_acceptance-Confined :
      (a b : String) (v : Value) → Confined P Any (check_acceptance p api a b v)
  unfolding check_acceptance
  check_acceptance-Confined a b v = search (any_rules) depth 8

  check_revisions-Confined :
      (bundle : ExecutionBundle) (head_sha : String) (frozen : Value)
      → Confined P Any (check_revisions p api bundle head_sha frozen)
  unfolding check_revisions
  check_revisions-Confined bundle head_sha frozen =
      search
        (
          any_rules,
          check_ancestry-Confined,
          record_at-Confined,
          check_acceptance-Confined,
          load_at-Confined p api P gets,
        )
        depth 20

  pub verify_bundle_journal-Confined :
      (bundle : ExecutionBundle) (head_sha : String) (current : Value)
      → Confined P Any (verify_bundle_journal p api bundle head_sha current)
  unfolding verify_bundle_journal
  verify_bundle_journal-Confined bundle head_sha current =
      search (any_rules, guarded-Confined, check_revisions-Confined) depth 12

  -- The search for a stored prepare checkpoint keeps every property of the remote state that GET requests
  -- keep: it sends nothing else, and it is over whatever the remote answers.
  pub load_durable_prepare_checkpoint-Confined :
      (policy : TrustedReceiptPolicy) (repository issue_number : Value) (execution_id : String)
      (request_id : Option String)
      → Confined P Any (
          load_durable_prepare_checkpoint p api policy repository issue_number execution_id
            request_id)
  unfolding load_durable_prepare_checkpoint
  load_durable_prepare_checkpoint-Confined policy repository issue_number execution_id request_id =
      search (any_rules, matching_publisher_comments-Confined) depth 16

  terminal_record-Confined :
      (policy : TrustedReceiptPolicy) (request_id : String)
      → Confined P Any (terminal_record p api policy request_id)
  unfolding terminal_record
  terminal_record-Confined policy request_id =
      search (any_rules, guarded-Confined, load-Confined p api P gets) depth 12

  -- The load of a published receipt keeps every property of the remote state that GET requests keep:
  -- it sends nothing else.
  pub load_durable_published_receipt-Confined :
      (policy : TrustedReceiptPolicy) (issue_number : ℕ) (execution_id request_id : String)
      → Confined P Any
          (load_durable_published_receipt p api policy issue_number execution_id request_id)
  unfolding load_durable_published_receipt
  load_durable_published_receipt-Confined policy issue_number execution_id request_id =
      search
        (
          any_rules,
          stable_comments-Confined api P gets,
          terminal_record-Confined,
          verify_bundle_journal-Confined,
        )
        depth 30

  pub observe_receipt-Confined :
      (policy : TrustedReceiptPolicy) (issue : Issue) (binding : ReceiptBinding)
      → Confined P Any (observe_receipt p api policy issue binding)
  unfolding observe_receipt
  observe_receipt-Confined policy issue binding =
      search (any_rules, stable_comments-Confined api P gets) depth 10

  pub existing_receipt-Confined :
      (policy : TrustedReceiptPolicy) (bundle : ExecutionBundle)
      → Confined P Any (existing_receipt p api policy bundle)
  unfolding existing_receipt
  existing_receipt-Confined policy bundle =
      search (any_rules, stable_comments-Confined api P gets) depth 12
