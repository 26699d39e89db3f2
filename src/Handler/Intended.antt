-- ===== src/Handler/Intended.antt =====
-- The durable preparation of scripts/actions_request_handler.py claims a request only after its intent.
use zach.Common.{ℕ, ◌≡◌, ap, ◌⊎◌, inl, inr, Bool, true, false, String, if◌then◌else◌}
use zach.Python.Value.{Value, eq_str}
use zach.Python.Plain.{item}
use zach.Action.{ok, pure, lift, ◌>>=◌}
use zach.Action.Confined.{Confined}
use zach.Action.Inversion.{after_action, after_lift, past_lift, past_bind, past_if}
use zach.Platform.{Platform}
use zach.Journal.Record.{parse_and_validate_record}
use zach.Journal.Api.{Transport, get_method, post_method}
use zach.Journal.Effects.{Any, KeptBy, any_rules}
use zach.Coordinator.Results.{AcceptanceResult}
use zach.Handler.Bundle.{TrustedReceiptPolicy}
use zach.Handler.Comment.{Issue, comments_path}
use zach.Handler.Marker.{PublisherKind}
use zach.Handler.Phase.{PublisherPhase}
use zach.Handler.Checkpoint.{ensure_publisher_comment}
use zach.Handler.Envelope.{is_ended, intent_envelope}
use zach.Handler.Prepare.{
  check_intent_snapshot, validate_intent_snapshot, load_publisher_intent, intent_for,
  prepare_durable,
}
use zach.Handler.Reading.{
  guarded-Confined, matching_publisher_comments-Confined, record_at-Confined,
  check_acceptance-Confined,
}
use zach.Handler.Found.{IsFound, load_publisher_intent-IsFound}
use zach.Handler.Ensured.{
  IsEnsured, ensure_publisher_comment-IsEnsured, ensure_publisher_comment-Confined,
}

module _ {B W : Type 0} (p : Platform B) (api : Transport W) (policy : TrustedReceiptPolicy) where
  -- The intent of the record: written now and on the issue, or the only one that was found there and whose
  -- bindings and revision have been checked.
  pub record IsIntended (current : Value) (execution_id revision : String) : Type 0 where
    pub intent : Value
    pub stands :
        ((id : ℕ) × (intent_envelope current execution_id revision ≡ ok intent)
          × IsEnsured p api policy PublisherKind.intent intent id)
        ⊎ ((before : W) × IsFound p api policy current execution_id before intent)

  intent_for-IsIntended :
      (state current : Value) (execution_id revision : String) (w : W) {intent : Value} {w' : W}
      → intent_for p api policy state current execution_id revision w ≡ (ok intent, w')
      → IsIntended current execution_id revision
  unfolding intent_for
  intent_for-IsIntended state current execution_id revision w {intent} {w'} h =
      split (eq_str state "accepted") h
    where
      split :
          (b : Bool)
          → (if b
                then (lift (intent_envelope current execution_id revision) >>= λ envelope.
                    ensure_publisher_comment p api policy PublisherKind.intent envelope >>= λ id.
                    pure envelope)
                else load_publisher_intent p api policy current execution_id)
              w
            ≡ (ok intent, w')
          → IsIntended current execution_id revision
      split true j = after_lift _ _ _ j λ envelope made j₁.
          after_action _ _ _ j₁ λ id w₁ ensured j₂. record {
            intent = envelope;
            stands = inl (
              id,
              made,
              ensure_publisher_comment-IsEnsured p api policy PublisherKind.intent envelope w
                  ensured,
            );
          }
      split false j = record {
        intent = intent;
        stands = inr (w, load_publisher_intent-IsFound p api policy current execution_id w j);
      }

  module _ (P : W → Type 0) (gets : KeptBy P api get_method)
      (comments : (issue : Issue) (body : Value)
        → Confined P Any (api post_method (comments_path issue) body)) where
    check_intent_snapshot-Confined :
        (a b : Value) → Confined P Any (check_intent_snapshot p api policy a b)
    unfolding check_intent_snapshot
    check_intent_snapshot-Confined a b =
        search (any_rules, record_at-Confined p api P gets, check_acceptance-Confined p api P gets)
          depth 12

    validate_intent_snapshot-Confined :
        (a b : Value) → Confined P Any (validate_intent_snapshot p api policy a b)
    unfolding validate_intent_snapshot
    validate_intent_snapshot-Confined a b =
        search (any_rules, guarded-Confined, check_intent_snapshot-Confined) depth 12

    load_publisher_intent-Confined :
        (a : Value) (b : String) → Confined P Any (load_publisher_intent p api policy a b)
    unfolding load_publisher_intent
    load_publisher_intent-Confined a b =
        search
          (
            any_rules,
            matching_publisher_comments-Confined p api P gets,
            validate_intent_snapshot-Confined,
          )
          depth 20

    intent_for-Confined :
        (state current : Value) (execution_id revision : String)
        → Confined P Any (intent_for p api policy state current execution_id revision)
    unfolding intent_for
    intent_for-Confined state current execution_id revision =
        search
          (
            any_rules,
            ensure_publisher_comment-Confined p api policy P gets comments,
            load_publisher_intent-Confined,
          )
          depth 14

module _ {B W : Type 0} (p : Platform B) (phase : PublisherPhase B W)
    (policy : TrustedReceiptPolicy) (P : W → Type 0)
    (gets : KeptBy P phase.read_api_transport get_method)
    (comments : (issue : Issue) (body : Value)
      → Confined P Any (phase.read_api_transport post_method (comments_path issue) body)) where
  -- The intent of the acceptance, whose record has been checked.
  pub HasIntent : AcceptanceResult → String → Type 0
  HasIntent acceptance execution_id =
      (current : Value) × (parse_and_validate_record p acceptance.record_json acceptance.request_id
        ≡ ok current)
      × IsIntended p phase.read_api_transport policy current execution_id
          acceptance.durable_revision

  -- Whatever the coordinator does on a claim: a property of the state that GET requests and new comments keep
  -- is kept by the durable preparation, unless the intent of the accepted record stands on the issue, written
  -- or found and validated. So no request is claimed before its intent is there.
  pub prepare_durable-intended :
      (acceptance : AcceptanceResult) (execution_id : String) (w : W)
      → P w
      → P (prepare_durable p phase policy acceptance execution_id w).1
        ⊎ HasIntent acceptance execution_id
  unfolding prepare_durable HasIntent
  prepare_durable-intended acceptance execution_id w h =
      past_lift P (parse_and_validate_record p acceptance.record_json acceptance.request_id) _ w h
        λ current parsed. past_lift P (item "state" current) _ w h λ state _.
          past_if P (is_ended state) _ _ w h λ _.
            let intent =
              intent_for p phase.read_api_transport policy state current execution_id
                acceptance.durable_revision in
            past_bind P intent _ w
              ((intent_for-Confined p phase.read_api_transport policy P gets comments state current
                  execution_id acceptance.durable_revision).keeps
                w h)
              λ envelope found. inr (
                current,
                parsed,
                intent_for-IsIntended p phase.read_api_transport policy state current execution_id
                    acceptance.durable_revision w (ap (λ r. (r, (intent w).1)) found),
              )
