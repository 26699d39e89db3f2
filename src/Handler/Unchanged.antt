-- ===== src/Handler/Unchanged.antt =====
-- `reconcile_request` of scripts/actions_request_handler.py changes nothing without a receipt.
use mathlib.Core.Path.{subst}
use zach.Common.{
  ◌≡◌, refl, sym, Bool-cases, ◌⊎◌, inl, inr, Bool, true, false, not, Option, String, if◌then◌else◌,
}
use zach.Python.Value.{Value, dict, has_key, get, eq_str, is_null}
use zach.Python.Plain.{item}
use zach.Action.{Result, ok, err, require, pure, lift, raise, ◌>>=◌}
use zach.Action.Error.{handler_error}
use zach.Action.Confined.{Confined}
use zach.Action.Inversion.{past_lift, past_bind, past_if, past_map}
use zach.Action.Checks.{require-ok}
use zach.Platform.{Platform}
use zach.Journal.Record.{validate_request_id}
use zach.Journal.Api.{get_method}
use zach.Journal.Effects.{Any, KeptBy}
use zach.Handler.Comment.{Issue}
use zach.Handler.Receipt.{ReceiptBinding}
use zach.Handler.Trusted.{Match, issue_of}
use zach.Handler.Phase.{PublisherPhase}
use zach.Handler.Envelope.{is_ended}
use zach.Handler.Handle.{
  is_owner, finish_ambiguous, reconcile_ambiguous, reconcile_state, reconcile_request,
}
use zach.Handler.Gate.{past_receipt}
use zach.Handler.Observed.{IsObserved}

is_unset : (b : Bool) → not b ≡ true → b ≡ false
is_unset true h = absurd (cc)
is_unset false h = refl

item-get : (key : String) (v : Value) {u : Value} → item key v ≡ ok u → get key v ≡ u
unfolding item
item-get key (dict fs) {u} h = elim (Bool-cases (has_key key fs)) [
  | inl e ↦ cc
  | inr e ↦ absurd (cc)
]
item-get key v h = absurd (cc)

kept_lift :
    {W A X : Type 0} (P : W → Type 0) (r : Result X) (a : A) (w : W)
    → P w
    → P ((lift r >>= λ _. pure a) w).1
unfolding ◌>>=◌
kept_lift P (ok x) a w h = h
kept_lift P (err e) a w h = h

module _ {B W : Type 0} (p : Platform B) (phase : PublisherPhase B W) (P : W → Type 0)
    (gets : KeptBy P phase.read_api_transport get_method) where
  -- A receipt was seen whose request, digest and operation are those of the record.
  pub record HasReceipt (accepted claim : Option String) (current : Value) : Type 0 where
    pub binding : ReceiptBinding
    pub issue : Issue
    pub m : Match
    pub before : W
    pub later : W
    pub of_request : item "request_id" current ≡ ok binding.request_id
    pub of_digest : item "request_digest" current ≡ ok binding.request_digest
    pub of_operation : item "operation" current ≡ ok binding.operation
    pub of_owner : is_null (get "execution_id" current) ≡ false
    pub as_asked : (binding.accepted_revision ≡ accepted) × (binding.claim_revision ≡ claim)
    pub seen :
        IsObserved p phase.read_api_transport phase.trusted_receipt_policy issue binding m before
          later

  past_ambiguous :
      (request_id : String) (execution_id accepted claim : Option String) (head_sha : String)
      (current : Value) (w : W)
      → P w
      → P (reconcile_ambiguous p phase request_id execution_id accepted claim head_sha current w).1
        ⊎ HasReceipt accepted claim current
  unfolding reconcile_ambiguous finish_ambiguous
  past_ambiguous request_id execution_id accepted claim head_sha current w h =
      past_lift P (require (not (is_null (get "execution_id" current))) _) _ w h λ _ owned.
        past_lift P (require (is_owner execution_id (get "execution_id" current)) _) _ w h λ _ _.
          past_lift P (item "repository_full_name" current) _ w h λ repository _.
            past_lift P (item "issue_number" current) _ w h λ number _.
              past_lift P (item "request_id" current) _ w h λ expected of_request.
                past_lift P (item "request_digest" current) _ w h λ digest of_digest.
                  past_lift P (item "operation" current) _ w h λ operation of_operation.
                    let binding : ReceiptBinding = record {
                      request_id = expected;
                      request_digest = digest;
                      operation = operation;
                      accepted_revision = accepted;
                      claim_revision = claim;
                    } in
                    past_receipt p phase.read_api_transport phase.trusted_receipt_policy
                      (issue_of p repository number) binding P gets _ w h (λ w₁ k. k)
                      λ m w₁ seen. record {
                        binding = binding;
                        issue = issue_of p repository number;
                        m = m;
                        before = w;
                        later = w₁;
                        of_request = of_request;
                        of_digest = of_digest;
                        of_operation = of_operation;
                        of_owner = is_unset _ (require-ok _ _ owned);
                        as_asked = (refl, refl);
                        seen = seen;
                      }

  past_state :
      (state : Value) (request_id : String) (execution_id accepted claim : Option String)
      (head_sha : String) (current : Value) (w : W)
      → P w
      → P
          (reconcile_state p phase state request_id execution_id accepted claim head_sha current
            w).1
        ⊎ ((eq_str state "ambiguous" ≡ true) × HasReceipt accepted claim current)
  unfolding reconcile_state
  past_state state request_id execution_id accepted claim head_sha current w h =
      past_if P (is_ended state) _ _ w h λ _.
        past_if P (eq_str state "executing") _ _ w
          (kept_lift P (require (is_owner execution_id (get "execution_id" current)) _) _ w h)
          λ _. ambiguous (eq_str state "ambiguous") refl
    where
      ambiguous :
          (b : Bool)
          → eq_str state "ambiguous" ≡ b
          → P
              ((if b
                  then reconcile_ambiguous p phase request_id execution_id accepted claim head_sha
                      current
                  else raise (handler_error "reconciliation_invalid_state"))
                w).1
            ⊎ ((eq_str state "ambiguous" ≡ true) × HasReceipt accepted claim current)
      ambiguous false e = inl h
      ambiguous true e =
          past_map (past_ambiguous request_id execution_id accepted claim head_sha current w h)
            λ seen. (e, seen)

  -- A reconciliation keeps every property of the state that GET requests and the load of the record keep,
  -- unless the record that was loaded is ambiguous and claimed, and the one trusted and canonical receipt of its request,
  -- digest and operation was seen. In particular it changes nothing of a request that is executing.
  pub reconcile_request-observed :
      (request_id : String) (execution_id accepted claim : Option String)
      → Confined P Any (phase.coordinator.load_record request_id)
      → (w : W) → P w
      → P (reconcile_request p phase request_id execution_id accepted claim w).1
        ⊎ ((head : String) × (current : Value) × ((phase.coordinator.load_record request_id w).0
              ≡ ok (head, current))
            × (eq_str (get "state" current) "ambiguous" ≡ true)
            × HasReceipt accepted claim current)
  unfolding reconcile_request
  reconcile_request-observed request_id execution_id accepted claim loads w h =
      past_lift P (validate_request_id request_id) _ w h λ _ _.
        past_bind P (phase.coordinator.load_record request_id) _ w (loads.keeps w h)
          λ loaded is_loaded.
            past_lift P (item "state" loaded.1) _ _ (loads.keeps w h) λ state at_state.
              past_map
                (past_state state request_id execution_id accepted claim loaded.0 loaded.1 _
                  (loads.keeps w h))
                λ seen. (loaded.0, loaded.1, is_loaded, same_state loaded.1 at_state seen.0, seen.1)
    where
      same_state :
          (current : Value) {state : Value}
          → item "state" current ≡ ok state
          → eq_str state "ambiguous" ≡ true
          → eq_str (get "state" current) "ambiguous" ≡ true
      same_state current e a =
          subst (λ v. eq_str v "ambiguous" ≡ true) (sym (item-get _ current e)) a
