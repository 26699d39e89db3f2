-- ===== src/Handler/Gate.antt =====
-- The Publisher of scripts/actions_request_handler.py ends a request only on a receipt that it has seen.
use zach.Common.{◌≡◌, refl, ap, ◌∙◌, ◌⊎◌, inl, inr, ◌||◌, Option, none, some, String}
use zach.Python.Value.{Value, get, eq_str}
use zach.Python.Plain.{item}
use zach.Action.{Result, ok, Action, require, ◌>>=◌}
use zach.Action.Error.{Exc, handler_error}
use zach.Action.Confined.{Confined, Confined-bind, Confined-try, Confined-pure}
use zach.Action.Inversion.{past_lift, past_bind, past_if}
use zach.Platform.{Platform}
use zach.Journal.Api.{Transport, get_method}
use zach.Journal.Effects.{Any, KeptBy, any_rules}
use zach.Handler.Bundle.{ExecutionBundle}
use zach.Handler.Results.{ExecutionReceipt, ControlExecutionResult}
use zach.Handler.Trusted.{Match}
use zach.Handler.Bundle.{TrustedReceiptPolicy}
use zach.Handler.Comment.{Issue}
use zach.Handler.Receipt.{ReceiptBinding}
use zach.Handler.Binding.{verify_bundle_journal}
use zach.Handler.Phase.{PublisherPhase}
use zach.Handler.Checkpoint.{bundle_issue}
use zach.Handler.Observe.{bundle_binding, observe_receipt}
use zach.Handler.Envelope.{is_ended}
use zach.Handler.Finalize.{
  safe_mark_ambiguous, left_ambiguous, finish_receipt, reported, finalize_open, finalize,
}
use zach.Handler.Reading.{verify_bundle_journal-Confined, observe_receipt-Confined}
use zach.Handler.Observed.{IsObserved, observe_receipt-IsObserved}

module _ {B W A G : Type 0} (p : Platform B) (api : Transport W) (policy : TrustedReceiptPolicy)
    (issue : Issue) (binding : ReceiptBinding) (P : W → Type 0)
    (gets : KeptBy P api get_method) where
  -- The observation of a receipt, and a rest that keeps the property where none is found.
  pub past_receipt :
      (next : Option Match → Action W A) (w : W)
      → P w
      → ((w₁ : W) → P w₁ → P (next none w₁).1)
      → ((m : Match) (w₁ : W) → IsObserved p api policy issue binding m w w₁ → G)
      → P ((observe_receipt p api policy issue binding >>= next) w).1 ⊎ G
  past_receipt next w h without seen =
      past_bind P observe next w kept (found (observe w).0 (observe w).1 refl kept)
    where
      observe : Action W (Option Match)
      observe = observe_receipt p api policy issue binding

      kept : P (observe w).1
      kept = (observe_receipt-Confined p api P gets policy issue binding).keeps w h

      found :
          (r : Result (Option Match)) (w₁ : W)
          → observe w ≡ (r, w₁)
          → P w₁
          → (o : Option Match) → r ≡ ok o
          → P (next o w₁).1 ⊎ G
      found r w₁ e k none e' = inl (without w₁ k)
      found r w₁ e k (some m) e' = inr (
          seen m w₁
            (observe_receipt-IsObserved p api policy issue binding w (e ∙ ap (λ x. (x, w₁)) e')))

module _ {B W : Type 0} (p : Platform B) (phase : PublisherPhase B W) (bundle : ExecutionBundle)
    (P : W → Type 0) (gets : KeptBy P phase.read_api_transport get_method)
    (marks : Confined P Any
      (phase.coordinator.mark_ambiguous bundle.request_id bundle.execution_id)) where
  safe_mark_ambiguous-Confined : Confined P Any (safe_mark_ambiguous p phase bundle)
  unfolding safe_mark_ambiguous
  safe_mark_ambiguous-Confined =
      Confined-try _ _ (Confined-bind _ _ marks λ _. Confined-pure _) λ e. Confined-pure _

  left_ambiguous-Confined :
      {A : Type 0} (state : Value) (e : Exc)
      → Confined P Any (left_ambiguous p phase {A = A} bundle state e)
  unfolding left_ambiguous
  left_ambiguous-Confined state e = search (any_rules, safe_mark_ambiguous-Confined) depth 10

  -- A receipt of the bundle that was seen.
  pub HasObserved : Type 0
  HasObserved =
      (m : Match) × (before : W) × (later : W) × IsObserved p phase.read_api_transport
        phase.trusted_receipt_policy (bundle_issue bundle) (bundle_binding bundle) m before later

  past_observed :
      (state : Value) (w : W)
      → P w
      → P
          ((observe_receipt p phase.read_api_transport phase.trusted_receipt_policy
                (bundle_issue bundle)
                (bundle_binding bundle)
              >>= λ found. finish_receipt p phase bundle state found)
            w).1
        ⊎ HasObserved
  unfolding finish_receipt HasObserved
  past_observed state w h =
      past_receipt p phase.read_api_transport phase.trusted_receipt_policy (bundle_issue bundle)
        (bundle_binding bundle) P gets _ w h (λ w₁ k. (left_ambiguous-Confined state _).keeps w₁ k)
        λ m w₁ seen. (m, w, w₁, seen)

  past_open :
      (control_result : Option ControlExecutionResult) (state current : Value) (w : W)
      → P w
      → P (finalize_open p phase bundle control_result state current w).1 ⊎ HasObserved
  unfolding finalize_open
  past_open control_result state current w h =
      past_lift P (require (eq_str state "executing" || eq_str state "ambiguous") _) _ w h λ _ _.
        past_lift P (require (eq_str (get "execution_id" current) bundle.execution_id) _) _ w h
          λ _ _. by_report (reported p phase control_result)
    where
      by_report :
          (o : Option String)
          → P
              (elim o as (λ _. Action W ExecutionReceipt) [
                | some code ↦ left_ambiguous p phase bundle state (handler_error code)
                | none ↦
                    observe_receipt p phase.read_api_transport phase.trusted_receipt_policy
                      (bundle_issue bundle)
                      (bundle_binding bundle)
                    >>= λ found. finish_receipt p phase bundle state found
              ]
                w).1
            ⊎ HasObserved
      by_report (some code) = inl ((left_ambiguous-Confined state _).keeps w h)
      by_report none = past_observed state w h

  -- Whatever Control reports and however the call ends: a property of the state that GET requests, the
  -- load of the record and the mark of an unknown outcome keep is kept by `finalize`, unless it has seen the
  -- one trusted and canonical receipt of the bundle. So no request ends without that receipt.
  pub finalize-observed :
      Confined P Any (phase.coordinator.load_record bundle.request_id)
      → (control_result : Option ControlExecutionResult) (w : W) → P w
      → P (finalize p phase bundle control_result w).1 ⊎ HasObserved
  unfolding finalize
  finalize-observed loads control_result w h =
      past_bind P (phase.coordinator.load_record bundle.request_id) _ w (loads.keeps w h)
        λ loaded _.
          let w₁ = (phase.coordinator.load_record bundle.request_id w).1 in
          let verify = verify_bundle_journal p phase.read_api_transport bundle loaded.0 loaded.1 in
          let h₁ =
            (verify_bundle_journal-Confined p phase.read_api_transport P gets bundle loaded.0
                loaded.1).keeps
              w₁ (loads.keeps w h) in
          past_bind P verify _ w₁ h₁ λ _ _. past_lift P (item "state" loaded.1) _ _ h₁ λ state _.
            past_if P (is_ended state) _ _ _ h₁ λ _. past_open control_result state loaded.1 _ h₁
