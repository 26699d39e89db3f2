-- ===== src/Handler/ReadBack.antt =====
-- A result of the Control phase of scripts/actions_request_handler.py that is not ambiguous.
use zach.Common.{
  ℕ, ◌≡◌, refl, sym, ap, ◌∙◌, ◌⊎◌, inl, inr, Bool, true, false, Option, none, some, String, arith,
  ◌==◌, leb, if◌then◌else◌,
}
use zach.Python.Value.{Value, null}
use zach.Action.{Result, ok, err, Action, pure, lift, ◌>>=◌}
use zach.Action.Error.{
  Exc, handler_error, api_error, journal_error, journal_validation_error, stale_snapshot_conflict,
  ambiguous_publication, coordinator_error, ci_inspect_error, recipe_dispatch_error,
  other_exception,
}
use zach.Action.Inversion.{after_action, after_lift, after_if, after_try, ok-injective}
use zach.Platform.{Platform}
use zach.Journal.Api.{get_method, post_method}
use zach.Handler.Bundle.{ExecutionBundle}
use zach.Handler.Results.{ControlExecutionResult}
use zach.Handler.Comment.{comments_path, comment_path, comment_url, validate_comment_identity}
use zach.Handler.Receipt.{format_receipt_comment}
use zach.Handler.Checkpoint.{bundle_issue, comment_value}
use zach.Handler.Observe.{existing_receipt}
use zach.Handler.Effect.{
  ControlPhase, Outcome, Effect, ambiguous_result, receipt_envelope, identity_failure,
}
use zach.Handler.Effect.{performed, stopped}
use zach.Handler.Control.{
  with_identity, published_result, requested, or_ambiguous, read_back, publish_receipt,
  unless_replayed, or_replay, publish_outcome, finish_effect, execute, observes_first,
}

module _ {B W : Type 0} (p : Platform B) (phase : ControlPhase W) (bundle : ExecutionBundle) where
  -- The receipt was posted, and both the answer and the comment of its id are the trusted author's, of the
  -- issue and with the body.
  pub record IsPublished (result : ControlExecutionResult) (later : W) : Type 0 where
    pub outcome : Outcome
    pub body : String
    pub answer : Value
    pub stored : Value
    pub comment_id : ℕ
    pub before : W
    pub between : W
    pub formatted : format_receipt_comment p (receipt_envelope bundle outcome) ≡ ok body
    pub posted :
        phase.api_transport post_method
          (comments_path (bundle_issue bundle))
          (comment_value body)
          before
        ≡ (ok answer, between)
    pub identified :
        validate_comment_identity answer phase.trusted_receipt_policy
          (bundle_issue bundle)
          (some body)
        ≡ ok comment_id
    pub read :
        phase.api_transport get_method (comment_path (bundle_issue bundle) comment_id) null between
        ≡ (ok stored, later)
    pub identified_again :
        validate_comment_identity stored phase.trusted_receipt_policy
          (bundle_issue bundle)
          (some body)
        ≡ ok comment_id
    pub enveloped : result.envelope ≡ some (receipt_envelope bundle outcome)
    pub referenced : result.terminal_reference ≡ some (comment_url (bundle_issue bundle) comment_id)

  not_ambiguous :
      {C : Type 0} (code : String) {w : W} {result : ControlExecutionResult} {w' : W}
      → ◌≡◌ {A = Result ControlExecutionResult × W}
          (ok (ambiguous_result bundle code), w)
          (ok result, w')
      → result.ambiguous ≡ false
      → C
  not_ambiguous code h n =
      let same = ap (λ (r : ControlExecutionResult). r.ambiguous) (ok-injective h).0 in absurd (cc)

  after_requested :
      {C : Type 0} (m : Action W Value) (w : W) {o : Option Value} {w' : W}
      → requested p phase m w ≡ (ok o, w')
      → (o ≡ none → C)
      → ((v : Value) → o ≡ some v → m w ≡ (ok v, w') → C)
      → C
  unfolding requested
  after_requested m w h k l =
      after_try (m >>= λ v. pure (some v)) (λ e. pure none) w h
        (λ h₁.
          after_action _ _ _ h₁ λ v w₁ e h₂.
            l v (sym (ok-injective h₂).0) (e ∙ ap (λ x. (ok v, x)) (ok-injective h₂).1))
        λ e w₁ h₁ h₂. k (sym (ok-injective h₂).0)

  -- A request that was answered.
  after_answer :
      {C : Type 0} (m : Action W Value) (next : Value → Action W ControlExecutionResult) (w : W)
      {result : ControlExecutionResult} {w' : W}
      → (requested p phase m >>= λ o. or_ambiguous p phase bundle o next) w ≡ (ok result, w')
      → result.ambiguous ≡ false
      → ((v : Value) (w₁ : W) → m w ≡ (ok v, w₁) → next v w₁ ≡ (ok result, w') → C)
      → C
  unfolding or_ambiguous
  after_answer {C} m next w {result} {w'} h n k =
      after_action _ _ _ h λ o w₁ sent h₁. split o w₁ sent h₁
    where
      split :
          (o : Option Value) (w₁ : W)
          → requested p phase m w ≡ (ok o, w₁)
          → or_ambiguous p phase bundle o next w₁ ≡ (ok result, w')
          → C
      split none w₁ sent j = not_ambiguous _ j n
      split (some v) w₁ sent j =
          after_requested m w sent (λ e. absurd (cc))
            λ u e asked. k v w₁ (asked ∙ ap (λ (x : Option Value). (ok (or_value x), w₁)) (sym e)) j
        where
          or_value : Option Value → Value
          or_value none = v
          or_value (some x) = x

  after_identity :
      {C : Type 0} (body : String) (comment : Value) (next : ℕ → Action W ControlExecutionResult)
      (w : W) {result : ControlExecutionResult} {w' : W}
      → with_identity p phase bundle body comment next w ≡ (ok result, w')
      → result.ambiguous ≡ false
      → ((id : ℕ)
          → validate_comment_identity comment phase.trusted_receipt_policy
              (bundle_issue bundle)
              (some body)
            ≡ ok id
          → next id w ≡ (ok result, w')
          → C)
      → C
  unfolding with_identity
  after_identity {C} body comment next w {result} {w'} h n k =
      split
        (validate_comment_identity comment phase.trusted_receipt_policy (bundle_issue bundle)
          (some body))
        refl h
    where
      refused :
          (e : Exc)
          → ◌≡◌ {A = Result ControlExecutionResult × W}
              (identity_failure bundle e, w)
              (ok result, w')
          → C
      refused (handler_error code) j = not_ambiguous code j n
      refused (api_error s) j = absurd (cc)
      refused journal_error j = absurd (cc)
      refused journal_validation_error j = absurd (cc)
      refused stale_snapshot_conflict j = absurd (cc)
      refused (ambiguous_publication a b c) j = absurd (cc)
      refused (coordinator_error c) j = absurd (cc)
      refused (ci_inspect_error c r) j = absurd (cc)
      refused (recipe_dispatch_error c r a) j = absurd (cc)
      refused other_exception j = absurd (cc)

      split :
          (r : Result ℕ)
          → validate_comment_identity comment phase.trusted_receipt_policy
              (bundle_issue bundle)
              (some body)
            ≡ r
          → elim r as (λ _. Action W ControlExecutionResult) [
            | ok id ↦ next id
            | err e ↦ lift (identity_failure bundle e)
          ]
              w
            ≡ (ok result, w')
          → C
      split (ok id) e j = k id e j
      split (err x) e j = refused x j

  read_number : (m n : ℕ) → (m == n) ≡ true → m ≡ n
  read_number m n h = ground arith

  published :
      (outcome : Outcome) (body : String) (answer stored : Value) (id readback_id : ℕ)
      {before between later : W} {result : ControlExecutionResult} {w' : W}
      → format_receipt_comment p (receipt_envelope bundle outcome) ≡ ok body
      → phase.api_transport post_method
          (comments_path (bundle_issue bundle))
          (comment_value body)
          before
        ≡ (ok answer, between)
      → validate_comment_identity answer phase.trusted_receipt_policy
          (bundle_issue bundle)
          (some body)
        ≡ ok id
      → phase.api_transport get_method (comment_path (bundle_issue bundle) id) null between
        ≡ (ok stored, later)
      → validate_comment_identity stored phase.trusted_receipt_policy
          (bundle_issue bundle)
          (some body)
        ≡ ok readback_id
      → (readback_id == id) ≡ true
      → ◌≡◌ {A = Result ControlExecutionResult × W}
          (published_result p phase bundle outcome (receipt_envelope bundle outcome) id, later)
          (ok result, w')
      → result.ambiguous ≡ false
      → IsPublished result w'
  unfolding published_result
  published outcome body answer stored id readback_id {before} {between} {later} {result} {w'}
        formatted posted identified read again same h n =
      split (leb (p.size (p.encode (comment_url (bundle_issue bundle) id))) 512) h
    where
      made : ControlExecutionResult
      made = record {
        request_id = bundle.request_id;
        execution_id = bundle.execution_id;
        terminal_state = some (Value.str outcome.terminal_state);
        terminal_code = some outcome.terminal_code;
        terminal_reference = some (comment_url (bundle_issue bundle) id);
        envelope = some (receipt_envelope bundle outcome);
        ambiguous = false;
        ambiguous_code = none;
        replayed = false;
      }

      split :
          (b : Bool)
          → ◌≡◌ {A = Result ControlExecutionResult × W}
              (
                (if b
                    then ok made
                    else ok (ambiguous_result bundle "terminal_reference_too_large")),
                later,
              )
              (ok result, w')
          → IsPublished result w'
      split false j = not_ambiguous _ j n
      split true j =
          let equal : made ≡ result = (ok-injective j).0 in
          record {
            outcome = outcome;
            body = body;
            answer = answer;
            stored = stored;
            comment_id = id;
            before = before;
            between = between;
            formatted = formatted;
            posted = posted;
            identified = identified;
            read = read ∙ ap (λ x. (ok stored, x)) (ok-injective j).1;
            identified_again = again ∙ ap ok (read_number _ _ same);
            enveloped = ap (λ (r : ControlExecutionResult). r.envelope) (sym equal);
            referenced = ap (λ (r : ControlExecutionResult). r.terminal_reference) (sym equal);
          }

  publish_receipt-IsPublished :
      (outcome : Outcome) (body : String) (w : W) {result : ControlExecutionResult} {w' : W}
      → format_receipt_comment p (receipt_envelope bundle outcome) ≡ ok body
      → publish_receipt p phase bundle outcome (receipt_envelope bundle outcome) body w
        ≡ (ok result, w')
      → result.ambiguous ≡ false
      → IsPublished result w'
  unfolding publish_receipt read_back
  publish_receipt-IsPublished outcome body w formatted h n =
      after_answer _ _ w h n λ answer w₁ posted h₁.
        after_identity body answer (read_back p phase bundle outcome _ body) w₁ h₁ n
          λ id identified h₂. after_answer _ _ w₁ h₂ n λ stored w₂ read h₃.
            after_identity body stored
              (λ readback_id.
                if readback_id == id
                then lift (published_result p phase bundle outcome _ id)
                else pure (ambiguous_result bundle "comment_readback_identity_mismatch"))
              w₂ h₃ n
              λ readback_id again h₄.
                after_if (readback_id == id) (lift (published_result p phase bundle outcome _ id))
                  (pure (ambiguous_result bundle "comment_readback_identity_mismatch")) w₂ h₄
                  (λ same h₅.
                    published outcome body answer stored id readback_id formatted posted identified
                      read again same h₅ n)
                  λ _ h₅. not_ambiguous _ h₅ n

  -- A receipt that was there before: the phase has read it back and repeats it.
  pub HasReplay : ControlExecutionResult → Type 0
  HasReplay result =
      (before : W) × (later : W) × (existing_receipt p phase.api_transport
          phase.trusted_receipt_policy bundle before
        ≡ (ok (some result), later))

  after_replay :
      (observes : Bool) (next : Action W ControlExecutionResult) (w : W)
      {result : ControlExecutionResult} {w' : W}
      → unless_replayed p phase observes bundle next w ≡ (ok result, w')
      → ((w₁ : W) → next w₁ ≡ (ok result, w') → HasReplay result ⊎ IsPublished result w')
      → HasReplay result ⊎ IsPublished result w'
  unfolding unless_replayed or_replay HasReplay
  after_replay false next w h k = k w h
  after_replay true next w {result} {w'} h k =
      after_action _ _ _ h λ o w₁ seen h₁. split o w₁ seen h₁
    where
      split :
          (o : Option ControlExecutionResult) (w₁ : W)
          → existing_receipt p phase.api_transport phase.trusted_receipt_policy bundle w
            ≡ (ok o, w₁)
          → or_replay p phase next o w₁ ≡ (ok result, w')
          → HasReplay result ⊎ IsPublished result w'
      split none w₁ seen j = k w₁ j
      split (some r) w₁ seen j = inl (w, w₁, seen ∙ ap (λ x. (ok (some x), w₁)) (ok-injective j).0)

  -- If Control ends well and reports no ambiguity, then its result repeats a receipt that it has found on the
  -- issue, or it has posted the receipt of its envelope and has read it back by its id: both answers are the
  -- trusted author's, of the issue and with the canonical body, and the reference names that comment.
  pub execute-IsPublished :
      (reconcile_recipe_only : Bool) (w : W) {result : ControlExecutionResult} {w' : W}
      → execute p phase reconcile_recipe_only bundle w ≡ (ok result, w')
      → result.ambiguous ≡ false
      → HasReplay result ⊎ IsPublished result w'
  unfolding execute finish_effect publish_outcome
  execute-IsPublished r w {result} {w'} h n = after_lift _ _ _ h λ frozen _ h₁.
      after_replay (observes_first p phase r bundle) _ w h₁
        λ w₁ h₂. after_action _ _ _ h₂ λ effect w₂ _ h₃. finished effect w₂ h₃
    where
      finished :
          (effect : Effect) (w₂ : W)
          → finish_effect p phase r bundle effect w₂ ≡ (ok result, w')
          → HasReplay result ⊎ IsPublished result w'
      finished (stopped code) w₂ j = not_ambiguous code j n
      finished (performed outcome) w₂ j = after_lift _ _ _ j λ body formatted j₁.
          after_replay (observes_first p phase r bundle) _ w₂ j₁ λ w₃ j₂.
            after_lift _ _ _ j₂
              λ _ _ j₃. inr (publish_receipt-IsPublished outcome body w₃ formatted j₃ n)
