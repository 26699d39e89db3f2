-- ===== src/Handler/Canonical.antt =====
-- What a parsed comment of scripts/actions_request_handler.py is: its body is the one that the
-- envelope is written as.
use mathlib.Core.Path.{subst}
use zach.Common.{
  ◌≡◌, refl, sym, ap, ◌∙◌, not, has_part, Bool, true, false, ◌&&◌, Option, none, some, List, String,
  str_eq, eq_iff, if◌then◌else◌,
}
use zach.Python.Value.{Value, str, get, is_dict, eq_str}
use zach.Action.{Result, ok}
use zach.Action.Checks.{after_bind, after_require, require-ok}
use zach.Platform.{Platform}
use zach.Handler.Bundle.{same_value}
use zach.Handler.Marker.{ReceiptMarker, receipt_prefix}
use zach.Handler.Receipt.{
  ReceiptBinding, is_terminal_code, is_receipt_state, as_expected, check_marker, check_envelope,
  format_receipt_comment, parse_bound, parse_marked, parse_receipt_comment,
}

pub same_text : (s t : String) → str_eq s t ≡ true → s ≡ t
same_text s t h = (eq_iff s t).0 h

pub some-same : {a b : Value} → ◌≡◌ {A = Result (Option Value)} (ok (some a)) (ok (some b)) → a ≡ b
some-same h = cc

is_unset : (b : Bool) → not b ≡ true → b ≡ false
is_unset true h = absurd (cc)
is_unset false h = refl

-- A branch that found an envelope is the first.
pub if_some :
    {C : Type 0} (b : Bool) {r : Result (Option Value)} {envelope : Value}
    → (if b then r else ok none) ≡ ok (some envelope)
    → (r ≡ ok (some envelope) → C)
    → C
if_some true h k = k h
if_some false h k = absurd (cc)

module _ {B : Type 0} (p : Platform B) where
  -- The receipt of a request is bound to what was expected, and its body is canonical.
  pub record IsReceipt (body : String) (binding : ReceiptBinding) (envelope : Value) : Type 0 where
    pub accepted_revision : String
    pub claim_revision : String
    pub is_object : is_dict envelope ≡ true
    pub request : same_value (get "request_id" envelope) binding.request_id ≡ true
    pub digest : same_value (get "request_digest" envelope) binding.request_digest ≡ true
    pub operation : same_value (get "operation" envelope) binding.operation ≡ true
    pub accepted : eq_str (get "accepted_revision" envelope) accepted_revision ≡ true
    pub claimed : eq_str (get "claim_revision" envelope) claim_revision ≡ true
    pub accepted_expected : as_expected binding.accepted_revision accepted_revision ≡ true
    pub claim_expected : as_expected binding.claim_revision claim_revision ≡ true
    pub code : is_terminal_code (get "terminal_code" envelope) ≡ true
    pub not_ledger_success :
        (eq_str binding.operation "governance.ledger"
          && eq_str (get "terminal_state" envelope) "succeeded")
        ≡ false
    pub state : is_receipt_state (get "terminal_state" envelope) ≡ true
    pub canonical : format_receipt_comment p envelope ≡ ok body

  parse_bound-IsReceipt :
      (body : String) (lines : List String) (marker : ReceiptMarker) (binding : ReceiptBinding)
      {envelope : Value}
      → parse_bound p body lines marker binding ≡ ok (some envelope)
      → IsReceipt body binding envelope
  unfolding parse_bound check_marker check_envelope
  parse_bound-IsReceipt body lines marker binding h = after_bind _ _ h λ _ marked h₁.
      after_require _ _ _ marked λ _ marked₁.
        after_require _ _ _ marked₁ λ accepted_expected marked₂. after_bind _ _ h₁ λ _ _ h₂.
          after_bind _ _ h₂ λ envelope _ h₃. after_bind _ _ h₃ λ _ checked h₄.
            after_bind _ _ h₄ λ canonical formatted h₅. after_require _ _ _ h₅ λ same h₆.
              after_require _ _ _ checked λ is_object c₁. after_require _ _ _ c₁ λ _ c₂.
                after_require _ _ _ c₂ λ _ c₃. after_require _ _ _ c₃ λ request c₄.
                  after_require _ _ _ c₄ λ digest c₅. after_require _ _ _ c₅ λ operation c₆.
                    after_require _ _ _ c₆ λ accepted c₇. after_require _ _ _ c₇ λ claimed c₈.
                      after_require _ _ _ c₈ λ state c₉. after_require _ _ _ c₉ λ success c₁₀.
                        after_require _ _ _ c₁₀ λ code _.
                          subst (IsReceipt body binding) (some-same h₆) (record {
                            accepted_revision = marker.accepted_revision;
                            claim_revision = marker.claim_revision;
                            is_object = is_object;
                            request = request;
                            digest = digest;
                            operation = operation;
                            accepted = accepted;
                            claimed = claimed;
                            accepted_expected = accepted_expected;
                            claim_expected = require-ok _ _ marked₂;
                            code = code;
                            not_ledger_success = is_unset _ success;
                            state = state;
                            canonical = formatted ∙ ap ok (sym (same_text _ _ same));
                          })

  parse_marked-IsReceipt :
      (body : String) (binding : ReceiptBinding) {envelope : Value}
      → parse_marked p body binding ≡ ok (some envelope)
      → IsReceipt body binding envelope
  unfolding parse_marked
  parse_marked-IsReceipt body binding h = after_require _ _ _ h λ _ h₁.
      after_require _ _ _ h₁ λ _ h₂. after_bind _ _ h₂ λ marker _ h₃.
        if_some (eq_str binding.request_id marker.request_id) h₃
          (parse_bound-IsReceipt body _ marker binding)

  -- A receipt that is found in a body is bound to the request, the digest, the operation and the revisions
  -- that are expected, claims no success of the ledger, and formats to the body.
  pub parse_receipt_comment-IsReceipt :
      (body : String) (binding : ReceiptBinding) {envelope : Value}
      → parse_receipt_comment p (str body) binding ≡ ok (some envelope)
      → IsReceipt body binding envelope
  unfolding parse_receipt_comment
  parse_receipt_comment-IsReceipt body binding h =
      if_some (has_part receipt_prefix body) h (parse_marked-IsReceipt body binding)
