-- ===== src/Handler/Trusted.antt =====
-- The Publisher's comments on an issue: the loops over trusted comments in
-- scripts/actions_request_handler.py.
use zach.Common.{ℕ, Option, none, some, List, [], ◌∷◌, String, if◌then◌else◌}
use zach.Python.Value.{Value, get}
use zach.Action.{Result, ok, bind, Action, lift, ◌>>=◌}
use zach.Platform.{Platform}
use zach.Journal.Api.{Transport}
use zach.Handler.Bundle.{TrustedReceiptPolicy}
use zach.Handler.Comment.{Issue, is_trusted_comment_author, stable_comments}
use zach.Handler.Marker.{PublisherKind}
use zach.Handler.Receipt.{formatted}
use zach.Handler.Publisher.{parse_publisher_comment}

-- A trusted comment with what it was parsed to, and its id.
pub record Match : Type 0 where
  pub envelope : Value
  pub comment : Value
  pub comment_id : ℕ

abbrev pub with_parsed : Option Value → ℕ → Value → List Match → List Match
with_parsed none id comment matches = matches
with_parsed (some envelope) id comment matches =
    record { envelope = envelope; comment = comment; comment_id = id } ∷ matches

-- The loop over the comments that are left: `parse` is what it makes of a trusted one's body.
unfoldable pub matching :
    TrustedReceiptPolicy
    → Issue
    → (Value → Result (Option Value))
    → List (ℕ × Value)
    → Result (List Match)
matching policy issue parse [] = ok []
matching policy issue parse ((id, comment) ∷ comments) =
    let rest = matching policy issue parse comments in
    if is_trusted_comment_author comment policy issue
    then bind (parse (get "body" comment))
        (λ envelope. bind rest λ matches. ok (with_parsed envelope id comment matches))
    else rest

module _ {B : Type 0} (p : Platform B) where
  -- The issue as the f-strings of paths and URLs write it.
  unfoldable pub issue_of : Value → Value → Issue
  issue_of repository number = record {
    repository = formatted p repository;
    number = formatted p number;
  }

  -- `_matching_publisher_comments`
  unfoldable pub matching_publisher_comments :
      {W : Type 0}
      → Transport W
      → TrustedReceiptPolicy
      → PublisherKind
      → Issue
      → String
      → Option String
      → Action W (List Match)
  matching_publisher_comments api_transport policy kind issue execution_id request_id = do
    comments ← stable_comments api_transport issue
    lift (
        matching policy issue (λ body. parse_publisher_comment p body kind execution_id request_id)
          comments)
