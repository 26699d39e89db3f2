-- ===== src/Handler/Found.antt =====
-- The intent that `_load_publisher_intent` of scripts/actions_request_handler.py finds.
use mathlib.Core.Path.{subst}
use mathlib.Core.List.{Memᴰ}
use zach.Common.{ℕ, ◌≡◌, refl, ap, ◌∙◌, true, some, List, [], ◌∷◌, String}
use zach.Python.Value.{Value, str, get}
use zach.Python.Plain.{item}
use zach.Python.Equal.{value_eq}
use zach.Action.{Result, ok, bind}
use zach.Action.Checks.{require-ok}
use zach.Action.Inversion.{after_action, after_lift, after_try, ok-injective}
use zach.Platform.{Platform}
use zach.Journal.Record.{parse_and_validate_record}
use zach.Journal.Api.{Transport}
use zach.Handler.Bundle.{TrustedReceiptPolicy, same_fields, text_of}
use zach.Handler.Comment.{is_trusted_comment_author, stable_comments}
use zach.Handler.Marker.{PublisherKind}
use zach.Handler.Publisher.{parse_publisher_comment}
use zach.Handler.Trusted.{Match, issue_of, matching_publisher_comments}
use zach.Handler.Binding.{as_accepted, guarded, record_at, check_acceptance}
use zach.Handler.Envelope.{intent_fields, single_intent}
use zach.Handler.Prepare.{check_intent_snapshot, validate_intent_snapshot, load_publisher_intent}
use zach.Handler.Checkpointed.{IsCheckpoint, parse_publisher_comment-IsCheckpoint}
use zach.Handler.Selected.{IsMatch, IsSelection, matching-IsSelection}

module _ {B : Type 0} (p : Platform B) where
  -- The body is a text, and the canonical comment of the envelope.
  pub record IsIntentBody (v : Value) (execution_id request_id : String) (envelope : Value)
      : Type 0 where
    pub body : String
    pub is_text : v ≡ str body
    pub checkpoint :
        IsCheckpoint p body PublisherKind.intent execution_id (some request_id) envelope

  parsed-IsIntentBody :
      (v : Value) (execution_id request_id : String) {envelope : Value}
      → parse_publisher_comment p v PublisherKind.intent execution_id (some request_id)
        ≡ ok (some envelope)
      → IsIntentBody v execution_id request_id envelope
  unfolding parse_publisher_comment
  parsed-IsIntentBody (str body) execution_id request_id h = record {
    body = body;
    is_text = refl;
    checkpoint =
        parse_publisher_comment-IsCheckpoint p body PublisherKind.intent execution_id
          (some request_id) h;
  }
  parsed-IsIntentBody v execution_id request_id h = absurd (cc)

module _ {B W : Type 0} (p : Platform B) (api : Transport W) (policy : TrustedReceiptPolicy) where
  -- The journal holds, at the revision that the intent names, the acceptance that the record came of.
  pub record IsAccepted (intent' current : Value) : Type 0 where
    pub request_id : String
    pub revision : String
    pub stored : String
    pub accepted : Value
    pub at : W
    pub of_request : bind (item "request_id" current) text_of ≡ ok request_id
    pub of_revision : bind (item "accepted_revision" intent') text_of ≡ ok revision
    pub read : (record_at p api request_id revision at).0 ≡ ok stored
    pub parsed : parse_and_validate_record p stored request_id ≡ ok accepted
    pub same : value_eq accepted (as_accepted current) ≡ true

  -- The intent is in a comment of the trusted author among those of the record's issue on which two scans
  -- agree; no other comment of this author is an intent of the execution and the request; it
  -- has the fields of the record, and its revision has been checked.
  pub record IsFound (current : Value) (execution_id : String) (before : W) (intent' : Value)
      : Type 0 where
    pub request_id : String
    pub repository : Value
    pub number : Value
    pub comments : List (ℕ × Value)
    pub later : W
    pub comment_id : ℕ
    pub comment : Value
    pub of_request : bind (item "request_id" current) text_of ≡ ok request_id
    pub of_repository : item "repository_full_name" current ≡ ok repository
    pub of_number : item "issue_number" current ≡ ok number
    pub scanned : stable_comments api (issue_of p repository number) before ≡ (ok comments, later)
    pub listed : Memᴰ (comment_id, comment) comments
    pub trusted : is_trusted_comment_author comment policy (issue_of p repository number) ≡ true
    pub written : IsIntentBody p (get "body" comment) execution_id request_id intent'
    pub only :
        (n : Match)
        → IsMatch policy
            (issue_of p repository number)
            (λ body.
              parse_publisher_comment p body PublisherKind.intent execution_id (some request_id))
            comments
            n
        → n.comment_id ≡ comment_id
    pub bound : same_fields intent_fields intent' current ≡ true
    pub accepted : IsAccepted intent' current

  after_guarded :
      {A C : Type 0} (m : W → Result A × W) (code : String) (w : W) {a : A} {w' : W}
      → guarded m code w ≡ (ok a, w')
      → (m w ≡ (ok a, w') → C)
      → C
  unfolding guarded
  after_guarded m code w h k = after_try m _ w h k λ e w₁ _ j. absurd (cc)

  check_intent_snapshot-IsAccepted :
      (intent' current : Value) (w : W) {w' : W}
      → check_intent_snapshot p api policy intent' current w ≡ (ok tt, w')
      → IsAccepted intent' current
  unfolding check_intent_snapshot check_acceptance
  check_intent_snapshot-IsAccepted intent' current w h =
      after_lift _ _ _ h λ request_id of_request h₁. after_lift _ _ _ h₁ λ revision of_revision h₂.
        after_action _ _ _ h₂ λ stored w₁ read h₃. after_lift _ _ _ h₃ λ accepted parsed h₄.
          record {
            request_id = request_id;
            revision = revision;
            stored = stored;
            accepted = accepted;
            at = w;
            of_request = of_request;
            of_revision = of_revision;
            read = ap (λ (x : Result String × W). x.0) read;
            parsed = parsed;
            same = require-ok _ _ (ap (λ (x : Result (Unit {0}) × W). x.0) h₄);
          }

  validate_intent_snapshot-IsAccepted :
      (intent' current : Value) (w : W) {w' : W}
      → validate_intent_snapshot p api policy intent' current w ≡ (ok tt, w')
      → (same_fields intent_fields intent' current ≡ true) × IsAccepted intent' current
  unfolding validate_intent_snapshot
  validate_intent_snapshot-IsAccepted intent' current w h = after_lift _ _ _ h λ _ same h₁. (
    require-ok _ _ same,
    after_guarded _ _ _ h₁ λ j. check_intent_snapshot-IsAccepted intent' current w j,
  )

  single :
      (ms : List Match) {v : Value}
      → single_intent ms ≡ ok v
      → (m : Match) × (ms ≡ m ∷ []) × (m.envelope ≡ v)
  single [] h = absurd (cc)
  single (m ∷ []) h = (m, refl, cc)
  single (m ∷ n ∷ ms) h = absurd (cc)

  only_one : {m n : Match} → Memᴰ n (m ∷ []) → n.comment_id ≡ m.comment_id
  only_one (Memᴰ.head e) = ap (λ (x : Match). x.comment_id) e
  only_one (Memᴰ.tail i) = elim i [ ]

  pub load_publisher_intent-IsFound :
      (current : Value) (execution_id : String) (w : W) {intent' : Value} {w' : W}
      → load_publisher_intent p api policy current execution_id w ≡ (ok intent', w')
      → IsFound current execution_id w intent'
  unfolding load_publisher_intent matching_publisher_comments
  load_publisher_intent-IsFound current execution_id w {intent'} h =
      after_lift _ _ _ h λ repository of_repository h₁. after_lift _ _ _ h₁ λ number of_number h₂.
        after_lift _ _ _ h₂ λ request_id of_request h₃. after_action _ _ _ h₃ λ ms w₁ found h₄.
          after_lift _ _ _ h₄ λ chosen one h₅. after_action _ _ _ h₅ λ _ w₂ checked h₆.
            after_action _ _ _ found λ comments v scanned found₁.
              let last : chosen ≡ intent' = (ok-injective h₆).0 in
              let (m, alone, is_chosen) = single ms one in
              let selection =
                subst
                  (IsSelection policy (issue_of p repository number)
                    (λ body.
                      parse_publisher_comment p body PublisherKind.intent execution_id
                        (some request_id))
                    comments)
                  alone
                  (matching-IsSelection policy (issue_of p repository number) _ comments
                    (ap (λ (x : Result (List Match) × W). x.0) found₁)) in
              let k = selection.sound m (Memᴰ.head refl) in
              let valid = validate_intent_snapshot-IsAccepted chosen current w₁ checked in
              record {
                request_id = request_id;
                repository = repository;
                number = number;
                comments = comments;
                later = v;
                comment_id = m.comment_id;
                comment = m.comment;
                of_request = of_request;
                of_repository = of_repository;
                of_number = of_number;
                scanned = scanned;
                listed = k.listed;
                trusted = k.trusted;
                written =
                    subst (IsIntentBody p (get "body" m.comment) execution_id request_id)
                      (is_chosen ∙ last) (parsed-IsIntentBody p _ execution_id request_id k.parsed);
                only = λ n i. only_one (selection.complete n i);
                bound = subst (λ v'. same_fields intent_fields v' current ≡ true) last valid.0;
                accepted = subst (λ v'. IsAccepted v' current) last valid.1;
              }
