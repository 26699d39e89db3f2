-- ===== src/Handler/Comment.antt =====
-- Comments of an issue: `_validate_comment_identity`, `_is_trusted_comment_author` and
-- `_scan_issue_comments` of scripts/actions_request_handler.py.
use zach.Common.{
  ℕ, zero, suc, ◌+◌, Bool, true, false, not, Option, none, some, List, [], ◌∷◌, ◌++◌, String, ◌⊹◌,
  show, ltb, leb, length, contains, if◌then◌else◌,
}
use zach.Python.Value.{Value, null, int, list, elements, is_dict, get, eq_str, eq_int}
use zach.Action.{
  Result, ok, err, Action, bind, require, or_raise, pure, lift, raise, try, ◌>>=◌, ◌>>◌,
}
use zach.Action.Error.{handler_error}
use zach.Journal.Api.{Transport, get_method}
use zach.Dispatch.Scan.{snapshots_eq}
use zach.Handler.Bundle.{TrustedReceiptPolicy}

abbrev pub max_reconciliation_pages : ℕ
max_reconciliation_pages = 10

abbrev pub reconciliation_per_page : ℕ
reconciliation_per_page = 100

-- `comment.get("id")`, an `int` above 0
unfoldable pub comment_id : Value → Option ℕ
comment_id (int n) = if ltb 0 n then some n else none
comment_id _ = none

-- An issue as it stands in paths: the repository's full name and the issue's number.
pub record Issue : Type 0 where
  pub repository : String
  pub number : String

abbrev pub api_issue_url : Issue → String
api_issue_url issue = "https://api.github.com/repos/" ⊹ issue.repository ⊹ "/issues/" ⊹ issue.number

abbrev pub comment_url : Issue → ℕ → String
comment_url issue id =
    "https://github.com/"
    ⊹ issue.repository
    ⊹ "/issues/"
    ⊹ issue.number
    ⊹ "#issuecomment-"
    ⊹ show id

abbrev pub comments_path : Issue → String
comments_path issue = "/repos/" ⊹ issue.repository ⊹ "/issues/" ⊹ issue.number ⊹ "/comments"

abbrev pub comment_path : Issue → ℕ → String
comment_path issue id = "/repos/" ⊹ issue.repository ⊹ "/issues/comments/" ⊹ show id

abbrev pub page_path : Issue → ℕ → String
page_path issue page = comments_path issue ⊹ "?per_page=100&page=" ⊹ show page

-- The block for the expected body, if there is one.
abbrev pub body_as_expected : Option String → Value → Bool
body_as_expected none comment = true
body_as_expected (some body) comment = eq_str (get "body" comment) body

unfoldable pub validate_comment_identity :
    Value → TrustedReceiptPolicy → Issue → Option String → Result ℕ
validate_comment_identity comment policy issue expected_body =
    bind (or_raise (comment_id (get "id" comment)) (handler_error "comment_identity_mismatch"))
      λ id.
        bind (require (is_dict (get "user" comment)) (handler_error "comment_authorship_missing"))
          λ _.
            bind
              (require (eq_int (get "id" (get "user" comment)) policy.bot_user_id)
                (handler_error "comment_bot_id_mismatch"))
              λ _.
                bind
                  (require (eq_str (get "type" (get "user" comment)) "Bot")
                    (handler_error "comment_user_not_bot"))
                  λ _.
                    bind
                      (require (is_dict (get "performed_via_github_app" comment))
                        (handler_error "comment_app_metadata_missing"))
                      λ _.
                        bind
                          (require
                            (eq_int (get "id" (get "performed_via_github_app" comment))
                              policy.app_id)
                            (handler_error "comment_app_id_mismatch"))
                          λ _.
                            bind
                              (require (eq_str (get "issue_url" comment) (api_issue_url issue))
                                (handler_error "comment_issue_url_mismatch"))
                              λ _.
                                bind
                                  (require (eq_str (get "html_url" comment) (comment_url issue id))
                                    (handler_error "comment_html_url_mismatch"))
                                  λ _.
                                    bind
                                      (require (body_as_expected expected_body comment)
                                        (handler_error "comment_body_mismatch"))
                                      λ _. ok id

abbrev pub succeeds : {A : Type 0} → Result A → Bool
succeeds (ok a) = true
succeeds (err e) = false

unfoldable pub is_trusted_comment_author : Value → TrustedReceiptPolicy → Issue → Bool
is_trusted_comment_author comment policy issue =
    succeeds (validate_comment_identity comment policy issue none)

-- The comments so far: their ids, their tuples, and the comments with their ids.
pub record CommentScan : Type 0 where
  pub seen : List ℕ
  pub snapshot : List (List Value)
  pub comments : List (ℕ × Value)

-- The tuple of a comment.
abbrev pub comment_row : Value → List Value
comment_row item =
    get "id" item
    ∷ get "body" item
    ∷ get "id" (get "user" item)
    ∷ get "type" (get "user" item)
    ∷ get "id" (get "performed_via_github_app" item)
    ∷ get "issue_url" item
    ∷ get "html_url" item
    ∷ []

-- The loop over the comments of one page.
unfoldable pub scan_comments_page : List Value → CommentScan → Result CommentScan
scan_comments_page [] scan = ok scan
scan_comments_page (item ∷ items) scan =
    bind (or_raise (comment_id (get "id" item)) (handler_error "reconciliation_malformed_response"))
      λ id.
        bind
          (require (not (contains id scan.seen))
            (handler_error "reconciliation_duplicate_comment_ids"))
          λ _. scan_comments_page items (record {
            seen = id ∷ scan.seen;
            snapshot = scan.snapshot ++ comment_row item ∷ [];
            comments = scan.comments ++ (id, item) ∷ [];
          })

-- A page is a list of no more comments than were asked for.
unfoldable pub page_items : Value → Result (List Value)
page_items (list items) =
    if leb (length (elements items)) reconciliation_per_page
    then ok (elements items)
    else err (handler_error "reconciliation_malformed_response")
page_items _ = err (handler_error "reconciliation_malformed_response")

abbrev pub no_comments : CommentScan
no_comments = record { seen = []; snapshot = []; comments = [] }

module _ {W : Type 0} (api_transport : Transport W) (issue : Issue) where
  -- The loop over the pages that are left, from the page `page`.
  unfoldable pub scan_comment_pages : ℕ → ℕ → CommentScan → Action W CommentScan
  scan_comment_pages zero page scan = raise (handler_error "reconciliation_pagination_exceeded")
  scan_comment_pages (suc left) page scan = do
    response ←
        try (api_transport get_method (page_path issue page) null)
          (λ _. raise (handler_error "reconciliation_api_failed"))
    items ← lift (page_items response)
    scanned ← lift (scan_comments_page items scan)
    let more = scan_comment_pages left (page + 1) scanned
    if ltb (length items) reconciliation_per_page then pure scanned else more

  unfoldable pub scan_issue_comments : Action W CommentScan
  scan_issue_comments = scan_comment_pages max_reconciliation_pages 1 no_comments

  -- Two scans in a row that must agree; the comments are those of the first.
  unfoldable pub stable_comments : Action W (List (ℕ × Value))
  stable_comments = do
    first ← scan_issue_comments
    second ← scan_issue_comments
    lift (
        require (snapshots_eq first.snapshot second.snapshot)
          (handler_error "reconciliation_observation_unstable"))
    pure first.comments
