-- ===== src/Handler/RoundTrip.antt =====
-- The dictionary of an execution bundle of scripts/actions_request_handler.py and back.
use mathlib.Core.Path.{subst}
use zach.Common.{ℕ, ◌≡◌, refl, ap, ◌∙◌, Bool, true, String, ltb, Bool-cases, inl, inr}
use zach.Python.Value.{Value, int, str, dict, Fields}
use zach.Python.Plain.{has_exactly}
use zach.Action.{Result, ok, err, bind, require, recode}
use zach.Action.Error.{Exc}
use zach.Action.Checks.{after_bind, after_require}
use zach.Journal.Record.{is_sha40, is_request_id, validate_request_id}
use zach.Coordinator.Policy.{is_execution_id}
use zach.Dispatch.Policy.{is_sha256}
use zach.Handler.Bundle.{
  ExecutionBundle, is_full_name, positive, text_that, entries, valid_request_id, construct, to_dict,
  from_dict,
}

-- The fields pass the tests of the constructor.
pub record IsBundle (bundle : ExecutionBundle) : Type 0 where
  pub request : is_request_id bundle.request_id ≡ true
  pub repository : ltb 0 bundle.repository_id ≡ true
  pub name : is_full_name bundle.repository_full_name ≡ true
  pub issue : ltb 0 bundle.issue_id ≡ true
  pub number : ltb 0 bundle.issue_number ≡ true
  pub execution : is_execution_id bundle.execution_id ≡ true
  pub accepted : is_sha40 bundle.accepted_revision ≡ true
  pub claimed : is_sha40 bundle.claim_revision ≡ true
  pub digest : is_sha256 bundle.request_digest ≡ true

pub text_that-ok :
    (test : String → Bool) (v : Value) {s : String} → text_that test v ≡ ok s → test s ≡ true
unfolding text_that
text_that-ok test (str t) {s} h = elim (Bool-cases (test t)) [ inl e ↦ cc | inr e ↦ absurd (cc) ]
text_that-ok test v h = absurd (cc)

text_that-str : (test : String → Bool) (s : String) → test s ≡ true → text_that test (str s) ≡ ok s
unfolding text_that
text_that-str test s h = cc

positive-ok : (v : Value) {n : ℕ} → positive v ≡ ok n → ltb 0 n ≡ true
unfolding positive
positive-ok (int m) {n} h = elim (Bool-cases (ltb 0 m)) [ inl e ↦ cc | inr e ↦ absurd (cc) ]
positive-ok v h = absurd (cc)

positive-int : (n : ℕ) → ltb 0 n ≡ true → positive (int n) ≡ ok n
unfolding positive
positive-int n h = cc

entries-dict : (fs : Fields) → entries (dict fs) ≡ ok fs
unfolding entries
entries-dict fs = refl

valid_request_id-ok : (v : Value) {s : String} → valid_request_id v ≡ ok s → is_request_id s ≡ true
unfolding valid_request_id validate_request_id
valid_request_id-ok (str t) {s} h = elim (Bool-cases (is_request_id t)) [
  | inl e ↦ cc
  | inr e ↦ absurd (cc)
]
valid_request_id-ok v h = absurd (cc)

valid_request_id-str : (s : String) → is_request_id s ≡ true → valid_request_id (str s) ≡ ok s
unfolding valid_request_id validate_request_id
valid_request_id-str s h = cc

recode-ok : {A : Type 0} (e : Exc) (r : Result A) {a : A} → recode e r ≡ ok a → r ≡ ok a
unfolding recode
recode-ok e (ok b) h = h
recode-ok e (err x) h = absurd (cc)

ok-same : {A : Type 0} {a b : A} → ok a ≡ ok b → a ≡ b
ok-same h = cc

bind-ok :
    {A B : Type 0} (r : Result A) (f : A → Result B) {a : A} {b : B}
    → r ≡ ok a
    → f a ≡ ok b
    → bind r f ≡ ok b
unfolding bind
bind-ok (ok a) f h k = ap f (ok-same h) ∙ k
bind-ok (err e) f h k = absurd (cc)

-- A constructed bundle passes the tests.
pub construct-IsBundle :
    (args : Value) {bundle : ExecutionBundle} → construct args ≡ ok bundle → IsBundle bundle
unfolding construct
construct-IsBundle args h = after_bind _ _ h λ request_id h₁ k₁. after_bind _ _ k₁ λ _ h₂ k₂.
    after_bind _ _ k₂ λ _ h₃ k₃. after_bind _ _ k₃ λ _ h₄ k₄. after_bind _ _ k₄ λ _ h₅ k₅.
      after_bind _ _ k₅ λ _ h₆ k₆. after_bind _ _ k₆ λ _ h₇ k₇. after_bind _ _ k₇ λ _ h₈ k₈.
        after_bind _ _ k₈ λ _ h₉ k₉. after_bind _ _ k₉ λ _ _ k. after_bind _ _ k λ _ _ built.
          subst IsBundle (ok-same built) (record {
            request = valid_request_id-ok _ h₁;
            repository = positive-ok _ h₂;
            name = text_that-ok _ _ h₃;
            issue = positive-ok _ h₄;
            number = positive-ok _ h₅;
            execution = text_that-ok _ _ h₆;
            accepted = text_that-ok _ _ h₇;
            claimed = text_that-ok _ _ h₈;
            digest = text_that-ok _ _ h₉;
          })

-- The dictionary of a bundle that passes the tests is read as that bundle.
construct-to_dict :
    (bundle : ExecutionBundle) → IsBundle bundle → construct (to_dict bundle) ≡ ok bundle
unfolding construct to_dict
construct-to_dict bundle h = bind-ok _ _ (valid_request_id-str _ h.request) (
    bind-ok _ _ (positive-int _ h.repository) (
      bind-ok _ _ (text_that-str _ _ h.name) (
        bind-ok _ _ (positive-int _ h.issue) (
          bind-ok _ _ (positive-int _ h.number) (
            bind-ok _ _ (text_that-str _ _ h.execution) (
              bind-ok _ _ (text_that-str _ _ h.accepted) (
                bind-ok _ _ (text_that-str _ _ h.claimed) (
                  bind-ok _ _ (text_that-str _ _ h.digest) (
                    bind-ok _ _ (text_that-str _ _ refl)
                      (bind-ok _ _ (entries-dict _) refl))))))))))

recode-accepts : {A : Type 0} (e : Exc) {r : Result A} {a : A} → r ≡ ok a → recode e r ≡ ok a
unfolding recode
recode-accepts e h = cc

pub from_dict-IsBundle :
    (data' : Value) {bundle : ExecutionBundle} → from_dict data' ≡ ok bundle → IsBundle bundle
unfolding from_dict
from_dict-IsBundle data' h =
    after_require _ _ _ h
      λ _ h₁. after_require _ _ _ h₁ λ _ h₂. construct-IsBundle data' (recode-ok _ _ h₂)

-- Whatever dictionary a bundle was read from, the dictionary that is written of it is read as the same
-- bundle.
pub from_dict-to_dict :
    (data' : Value) {bundle : ExecutionBundle}
    → from_dict data' ≡ ok bundle
    → from_dict (to_dict bundle) ≡ ok bundle
unfolding from_dict to_dict bind require has_exactly
from_dict-to_dict data' {bundle} h =
    recode-accepts _ (construct-to_dict bundle (from_dict-IsBundle data' h))
