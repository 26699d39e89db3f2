-- ===== src/Coordinator/Printed.antt =====
-- The record that the child of scripts/actions_journal_coordinator.py printed is the parse of its text.
use mathlib.Core.Path.{subst}
use zach.Common.{List, ◌≡◌, refl, ap, ◌∙◌, true, Option, some, String, arith}
use zach.Python.Value.{Value}
use zach.Action.{Result, ok, err, Action, recode}
use zach.Action.Error.{CoordinatorCode, coordinator_error}
use zach.Action.Checks.{after_bind, after_require}
use zach.Action.Inversion.{after_action, after_lift, ok-injective}
use zach.Platform.{Platform}
use zach.Journal.Parsed.{decoded-IsUnique}
use zach.Coordinator.Cli.{
  ReturnCode, Host, with_directory, write_private, invoke, printed_record, record_from_stdout,
  removed,
}
use zach.Coordinator.Owner.{run_mutation}
use zach.Coordinator.Claim.{run_claim}

-- The text that the child printed parses to the value.
pub printed_record-loads :
    {B : Type 0} (p : Platform B) (stdout : B) (expected : Option String) {r : String × Value}
    → record_from_stdout p stdout expected ≡ ok r
    → p.loads r.0 ≡ some r.1
unfolding record_from_stdout recode
printed_record-loads p stdout expected {r} h = printed (printed_record p stdout expected) refl h
  where
    inside : printed_record p stdout expected ≡ ok r → p.loads r.0 ≡ some r.1
    inside e =
        unfold printed_record in
        after_bind _ _ e λ raw _ e₁. after_require _ _ _ e₁ λ _ e₂. after_bind _ _ e₂ λ t _ e₃.
          after_bind _ _ e₃ λ v parsed e₄. after_require _ _ _ e₄ λ _ e₅.
            after_bind _ _ e₅ λ _ _ e₆. after_bind _ _ e₆ λ _ _ e₇.
              after_bind _ _ e₇
                λ _ _ e₈. let loads = (decoded-IsUnique true (p.loads t) parsed).0 in ground arith

    printed :
        (q : Result (String × Value))
        → printed_record p stdout expected ≡ q
        → recode (coordinator_error CoordinatorCode.cli_record_output_invalid) q ≡ ok r
        → p.loads r.0 ≡ some r.1
    printed (ok s) e k = inside (e ∙ k)
    printed (err x) e k = absurd (cc)

module _ {B W A C : Type 0} (host : Host B W) where
  -- The block of a successful `with` has succeeded.
  pub after_with_directory :
      (block : String → Action W A) (w : W) {a : A} {w' : W}
      → with_directory host block w ≡ (ok a, w')
      → ((directory : String) (w₁ w₂ : W) → block directory w₁ ≡ (ok a, w₂) → C)
      → C
  unfolding with_directory
  after_with_directory block w {a} {w'} h k = after_action _ _ w h λ directory w₁ _ h₁.
      closed directory w₁ (block directory w₁).0 (block directory w₁).1 refl
        (host.close_directory directory (block directory w₁).1) h₁
    where
      closed :
          (directory : String) (w₁ : W) (r : Result A) (w₂ : W)
          → block directory w₁ ≡ (r, w₂)
          → (c : Result (Unit {0}) × W) → removed host r c ≡ (ok a, w')
          → C
      closed directory w₁ (ok b) w₂ e (ok _, w₃) j =
          k directory w₁ w₂ (e ∙ ap {B = Result A × W} (λ x. (ok x, w₂)) (ok-injective j).0)
      closed directory w₁ (err x) w₂ e (ok _, w₃) j = absurd (cc)
      closed directory w₁ r w₂ e (err x, w₃) j = absurd (cc)

module _ {B W : Type 0} (p : Platform B) (host : Host B W) (cli : String) where
  pub run_claim-loads :
      (request_id execution_id stored directory : String) (w : W)
      {r : ReturnCode × (String × Value)} {w' : W}
      → run_claim p host cli request_id execution_id stored directory w ≡ (ok r, w')
      → p.loads r.1.0 ≡ some r.1.1
  unfolding run_claim
  run_claim-loads request_id execution_id stored directory w {r} {w'} h =
      after_action (write_private host directory "record.json" (p.encode stored)) _ w h
        λ path w₁ _ h₁. after_action (invoke p host cli "claim" _ _) _ w₁ h₁ λ invocation w₂ _ h₂.
          after_lift (record_from_stdout p invocation.stdout (some request_id)) _ w₂ h₂
            λ candidate printed h₃.
              subst (λ x. p.loads x.1.0 ≡ some x.1.1) (ok-injective h₃).0
                (printed_record-loads p invocation.stdout (some request_id) printed)

  pub claimed-loads :
      (request_id execution_id stored : String) (w : W) {r : ReturnCode × (String × Value)}
      → (with_directory host (run_claim p host cli request_id execution_id stored) w).0 ≡ ok r
      → p.loads r.1.0 ≡ some r.1.1
  claimed-loads request_id execution_id stored w e =
      let block = with_directory host (run_claim p host cli request_id execution_id stored) in
      after_with_directory host _ w (ap (λ x. (x, (block w).1)) e)
        λ directory v₁ v₂ run. run_claim-loads request_id execution_id stored directory v₁ run

  run_mutation-loads :
      (request_id stored command : String) (arguments : List String) (reference : Option String)
      (directory : String) (w : W) {r : String × Value} {w' : W}
      → run_mutation p host cli request_id stored command arguments reference directory w
        ≡ (ok r, w')
      → p.loads r.0 ≡ some r.1
  unfolding run_mutation
  run_mutation-loads request_id stored command arguments reference directory w {r} {w'} h =
      after_action (write_private host directory "record.json" (p.encode stored)) _ w h
        λ path w₁ _ h₁. after_action (invoke p host cli command _ _) _ w₁ h₁ λ invocation w₂ _ h₂.
          printed_record-loads p invocation.stdout (some request_id)
            (ap (λ (x : Result (String × Value) × W). x.0) h₂)

  pub mutated-loads :
      (request_id stored command : String) (arguments : List String) (reference : Option String)
      (w : W) {r : String × Value}
      → (with_directory host
          (run_mutation p host cli request_id stored command arguments reference)
          w).0
        ≡ ok r
      → p.loads r.0 ≡ some r.1
  mutated-loads request_id stored command arguments reference w e =
      let block =
        with_directory host
          (run_mutation p host cli request_id stored command arguments reference) in
      after_with_directory host _ w (ap (λ x. (x, (block w).1)) e) λ directory v₁ v₂ run.
        run_mutation-loads request_id stored command arguments reference directory v₁ run
