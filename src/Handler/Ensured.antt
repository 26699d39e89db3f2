-- ===== src/Handler/Ensured.antt =====
-- The Publisher's comments of scripts/actions_request_handler.py: what stands on the issue when one has
-- been ensured, and what the attempt may change.
use mathlib.Core.Path.{subst}
use zach.Common.{
  ℕ, ◌≡◌, ap, ◌∙◌, ◌⊎◌, inl, inr, true, Option, none, some, List, [], ◌∷◌, String, arith, ◌==◌,
  Bool-cases,
}
use zach.Python.Value.{Value, null, get, eq_str}
use zach.Action.{Result, ok, Action, pure, try}
use zach.Action.Confined.{Confined, Confined-bind, Confined-elim, Confined-try, Confined-pure}
use zach.Action.Inversion.{after_action, after_lift, after_try, ok-injective}
use zach.Action.Checks.{require-ok}
use zach.Platform.{Platform}
use zach.Journal.Api.{Transport, get_method, post_method}
use zach.Journal.Effects.{Any, KeptBy, Any-lift, any_rules}
use zach.Handler.Bundle.{TrustedReceiptPolicy}
use zach.Handler.Comment.{Issue, comments_path, comment_path, validate_comment_identity}
use zach.Handler.Marker.{PublisherKind}
use zach.Handler.Publisher.{format_publisher_comment}
use zach.Handler.Trusted.{Match}
use zach.Handler.Checkpoint.{
  Subject, comment_value, subject_of, existing_comment, recovered_comment, post_comment, matches_of,
  recover_comment, ensure_publisher_comment,
}
use zach.Handler.Reading.{matching_publisher_comments-Confined}

module _ {B W : Type 0} (p : Platform B) (api : Transport W) (policy : TrustedReceiptPolicy) where
  -- The one comment of the Publisher on the issue for the execution has this id and this body.
  pub record IsThere (kind : PublisherKind) (subject : Subject) (body : String) (id : ℕ)
      : Type 0 where
    pub before : W
    pub later : W
    pub m : Match
    pub observed : matches_of p api policy kind subject before ≡ (ok (m ∷ []), later)
    pub same_body : eq_str (get "body" m.comment) body ≡ true
    pub same_id : m.comment_id ≡ id

  -- The comment was posted and read back, both times with the trusted identity and with this body.
  pub record IsPosted (issue : Issue) (body : String) (id : ℕ) : Type 0 where
    pub before : W
    pub between : W
    pub later : W
    pub answer : Value
    pub stored : Value
    pub posted :
        api post_method (comments_path issue) (comment_value body) before ≡ (ok answer, between)
    pub identified : validate_comment_identity answer policy issue (some body) ≡ ok id
    pub read : api get_method (comment_path issue id) null between ≡ (ok stored, later)
    pub identified_again : validate_comment_identity stored policy issue (some body) ≡ ok id

  -- A comment with the canonical body of the envelope is on the issue.
  pub record IsEnsured (kind : PublisherKind) (envelope : Value) (id : ℕ) : Type 0 where
    pub subject : Subject
    pub body : String
    pub formatted : format_publisher_comment p kind envelope ≡ ok body
    pub about : subject_of p kind envelope ≡ ok subject
    pub evidence : IsThere kind subject body id ⊎ IsPosted subject.issue body id

  equal_number : (m n : ℕ) → (m == n) ≡ true → m ≡ n
  equal_number m n h = ground arith

  -- One comment of the id is there, if the last step of a search has returned the id.
  existing_one :
      (kind : PublisherKind) (subject : Subject) (body : String) (ms : List Match)
      (before later : W) {id : ℕ}
      → matches_of p api policy kind subject before ≡ (ok ms, later)
      → existing_comment kind body ms ≡ ok (some id)
      → IsThere kind subject body id
  unfolding existing_comment
  existing_one kind subject body [] before later seen h = absurd (cc)
  existing_one kind subject body (m ∷ []) before later {id} seen h =
      elim (Bool-cases (eq_str (get "body" m.comment) body)) [
        | inl same ↦ record {
          before = before;
          later = later;
          m = m;
          observed = seen;
          same_body = same;
          same_id = cc;
        }
        | inr other ↦ absurd (cc)
      ]
  existing_one kind subject body (m ∷ n ∷ ms) before later seen h = absurd (cc)

  recovered_one :
      (kind : PublisherKind) (subject : Subject) (body : String) (ms : List Match)
      (before later : W) {id : ℕ}
      → matches_of p api policy kind subject before ≡ (ok ms, later)
      → recovered_comment kind body ms ≡ ok id
      → IsThere kind subject body id
  unfolding recovered_comment
  recovered_one kind subject body [] before later seen h = absurd (cc)
  recovered_one kind subject body (m ∷ []) before later {id} seen h =
      elim (Bool-cases (eq_str (get "body" m.comment) body)) [
        | inl same ↦ record {
          before = before;
          later = later;
          m = m;
          observed = seen;
          same_body = same;
          same_id = cc;
        }
        | inr other ↦ absurd (cc)
      ]
  recovered_one kind subject body (m ∷ n ∷ ms) before later seen h = absurd (cc)

  post_comment-IsPosted :
      (issue : Issue) (body : String) (w : W) {id : ℕ} {w' : W}
      → post_comment p api policy issue body w ≡ (ok id, w')
      → IsPosted issue body id
  unfolding post_comment
  post_comment-IsPosted issue body w {id} h = after_action _ _ _ h λ answer w₁ posted h₁.
      after_lift _ _ _ h₁ λ id₁ identified h₂. after_action _ _ _ h₂ λ stored w₂ read h₃.
        after_lift _ _ _ h₃ λ id₂ again h₄. after_lift _ _ _ h₄ λ _ same h₅.
          let number : id₂ ≡ id₁ = equal_number id₂ id₁ (require-ok _ _ same) in
          let last : id₁ ≡ id = (ok-injective h₅).0 in
          record {
            before = w;
            between = w₁;
            later = w₂;
            answer = answer;
            stored = stored;
            posted = posted;
            identified = identified ∙ ap ok last;
            read =
                subst (λ n. api get_method (comment_path issue n) null w₁ ≡ (ok stored, w₂)) last
                  read;
            identified_again = again ∙ ap ok (number ∙ last);
          }

  -- When a comment of the Publisher has been ensured, then the one comment of its kind for the execution has
  -- the returned id and the canonical body of the envelope, or a comment with that body was posted and read
  -- back by that id, both times with the trusted identity.
  pub ensure_publisher_comment-IsEnsured :
      (kind : PublisherKind) (envelope : Value) (w : W) {id : ℕ} {w' : W}
      → ensure_publisher_comment p api policy kind envelope w ≡ (ok id, w')
      → IsEnsured kind envelope id
  unfolding ensure_publisher_comment recover_comment
  ensure_publisher_comment-IsEnsured kind envelope w {id} {w'} h =
      after_lift _ _ _ h λ body formatted h₁. after_lift _ _ _ h₁ λ subject about h₂.
        after_action _ _ _ h₂ λ ms w₁ seen h₃. after_lift _ _ _ h₃ λ existing last h₄. record {
          subject = subject;
          body = body;
          formatted = formatted;
          about = about;
          evidence = split subject body ms w₁ seen existing last h₄;
        }
    where
      split :
          (subject : Subject) (body : String) (ms : List Match) (w₁ : W)
          → matches_of p api policy kind subject w ≡ (ok ms, w₁)
          → (existing : Option ℕ) → existing_comment kind body ms ≡ ok existing
          → elim existing as (λ _. Action W ℕ) [
            | some comment_id ↦ pure comment_id
            | none ↦
                try
                  (post_comment p api policy subject.issue body)
                  λ e. recover_comment p api policy kind subject body
          ]
              w₁
            ≡ (ok id, w')
          → IsThere kind subject body id ⊎ IsPosted subject.issue body id
      split subject body ms w₁ seen (some n) last j = inl (
          existing_one kind subject body ms w w₁ seen
            (last ∙ ap (λ x. ok (some x)) (ok-injective j).0))
      split subject body ms w₁ seen none last j =
          after_try _ _ w₁ j (λ posted. inr (post_comment-IsPosted subject.issue body w₁ posted))
            λ e w₂ failed recovered. after_action _ _ _ recovered λ ms' w₃ seen' k.
              inl
                (recovered_one kind subject body ms' w₂ w₃ seen' (ap (λ (x : Result ℕ × W). x.0) k))

module _ {B W : Type 0} (p : Platform B) (api : Transport W) (policy : TrustedReceiptPolicy)
    (P : W → Type 0) (gets : KeptBy P api get_method)
    (comments : (issue : Issue) (body : Value)
      → Confined P Any (api post_method (comments_path issue) body)) where
  matches_of-Confined :
      (kind : PublisherKind) (subject : Subject)
      → Confined P Any (matches_of p api policy kind subject)
  unfolding matches_of
  matches_of-Confined kind subject = matching_publisher_comments-Confined p api P gets _ _ _ _ _

  post_comment-Confined :
      (issue : Issue) (body : String) → Confined P Any (post_comment p api policy issue body)
  unfolding post_comment
  post_comment-Confined issue body = search (any_rules, gets, comments) depth 14

  recover_comment-Confined :
      (kind : PublisherKind) (subject : Subject) (body : String)
      → Confined P Any (recover_comment p api policy kind subject body)
  unfolding recover_comment
  recover_comment-Confined kind subject body = search (any_rules, matches_of-Confined) depth 8

  pub ensure_publisher_comment-Confined :
      (kind : PublisherKind) (envelope : Value)
      → Confined P Any (ensure_publisher_comment p api policy kind envelope)
  unfolding ensure_publisher_comment
  ensure_publisher_comment-Confined kind envelope = Confined-bind _ _ (Any-lift _) λ body.
      Confined-bind _ _ (Any-lift _) λ subject.
        Confined-bind _ _ (matches_of-Confined kind subject) λ ms.
          Confined-bind _ _ (Any-lift _) λ existing.
            Confined-elim existing
              (Confined-try _ _ (post_comment-Confined subject.issue body)
                λ e. recover_comment-Confined kind subject body)
              λ id. Confined-pure id
