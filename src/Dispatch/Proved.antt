-- ===== src/Dispatch/Proved.antt =====
-- What a result of scripts/actions_recipe_dispatch.py says of the run that was read back.
use zach.Common.{ℕ, ◌-◌, ◌≡◌, ◌≤◌, ap, ◌∙◌, true, some, String, leb, arith}
use zach.Python.Value.{Value, null, str, get}
use zach.Action.{Result, ok, err, recode}
use zach.Action.Error.{Exc}
use zach.Action.Checks.{after_bind, after_require, or_raise-ok}
use zach.Action.Inversion.{after_action, after_lift, after_try}
use zach.Platform.{Platform}
use zach.Journal.Api.{Transport, get_method}
use zach.Journal.Record.{is_sha40}
use zach.Dispatch.Policy.{RecipeDispatchPolicy, dispatch_clock_skew}
use zach.Dispatch.Parameters.{RecipeInputs, text_if, parse_timestamp, bounded, validate_parameters}
use zach.Dispatch.Validate.{
  is_titled_run, is_run_of_actor, status_text, dispatched_value, validate_run, run_path,
}
use zach.Dispatch.Run.{readback}
use zach.Dispatch.Recipe.{dispatch_recipe, reconcile_recipe}

-- The result describes the run: its title, its actor and its repository are those of the policy and the
-- inputs, and it was created no earlier than five minutes before the acceptance.
pub record IsProvedRun (policy : RecipeDispatchPolicy) (inputs : RecipeInputs)
    (accepted_at run_id : ℕ) (run v : Value) : Type 0 where
  pub head_sha : String
  pub status : String
  pub created_at : ℕ
  pub titled : is_titled_run policy inputs run_id run ≡ true
  pub of_actor : is_run_of_actor policy run_id run ≡ true
  pub created : parse_timestamp (get "created_at" run) ≡ ok created_at
  pub in_time : accepted_at - dispatch_clock_skew ≤ created_at
  pub at_head : text_if is_sha40 (get "head_sha" run) ≡ some head_sha
  pub in_status : status_text (get "status" run) (get "conclusion" run) ≡ some status
  pub described : v ≡ dispatched_value policy inputs run_id head_sha status

recode-ok : {A : Type 0} (e : Exc) (r : Result A) {a : A} → recode e r ≡ ok a → r ≡ ok a
unfolding recode
recode-ok e (ok b) h = h
recode-ok e (err x) h = absurd (cc)

leb_le : (m n : ℕ) → leb m n ≡ true → m ≤ n
leb_le m n h = ground arith

bounded_same : {B : Type 0} (p : Platform B) (v : Value) {u : Value} → bounded p v ≡ ok u → u ≡ v
unfolding bounded
bounded_same p v h = after_bind _ _ h λ _ _ h₁. after_require _ _ _ h₁ λ _ h₂. cc

module _ {B : Type 0} (p : Platform B) (policy : RecipeDispatchPolicy) where
  validate_run-IsProvedRun :
      (run : Value) (run_id accepted_at : ℕ) (inputs : RecipeInputs) {v : Value}
      → validate_run p policy run run_id accepted_at inputs ≡ ok v
      → IsProvedRun policy inputs accepted_at run_id run v
  unfolding validate_run
  validate_run-IsProvedRun run run_id accepted_at inputs h = after_require _ _ _ h λ _ h₁.
      after_bind _ _ h₁ λ created_at parsed h₂. after_require _ _ _ h₂ λ titled h₃.
        after_require _ _ _ h₃ λ _ h₄. after_require _ _ _ h₄ λ in_time h₅.
          after_bind _ _ h₅ λ head_sha at_head h₆. after_require _ _ _ h₆ λ of_actor h₇.
            after_require _ _ _ h₇ λ _ h₈. after_bind _ _ h₈ λ status in_status h₉. record {
              head_sha = head_sha;
              status = status;
              created_at = created_at;
              titled = titled;
              of_actor = of_actor;
              created = recode-ok _ _ parsed;
              in_time = leb_le _ _ in_time;
              at_head = or_raise-ok _ _ at_head;
              in_status = or_raise-ok _ _ in_status;
              described = bounded_same p _ h₉;
            }

module _ {B W : Type 0} (p : Platform B) (api_transport : Transport W)
    (policy : RecipeDispatchPolicy) where
  -- The last request of the operation has read the run that its result describes.
  pub record IsReadBack (parameters : Value) (request_id accepted_at : String) (v : Value)
      (last : W) : Type 0 where
    pub inputs : RecipeInputs
    pub time : ℕ
    pub run_id : ℕ
    pub run : Value
    pub before : W
    pub checked : validate_parameters p parameters policy request_id ≡ ok inputs
    pub accepted : parse_timestamp (str accepted_at) ≡ ok time
    pub read : api_transport get_method (run_path policy run_id) null before ≡ (ok run, last)
    pub proved : IsProvedRun policy inputs time run_id run v

  readback-reads :
      (run_id time : ℕ) (inputs : RecipeInputs) (w : W) {v : Value} {w' : W}
      → readback p policy api_transport run_id time inputs w ≡ (ok v, w')
      → (run : Value) × (api_transport get_method (run_path policy run_id) null w ≡ (ok run, w'))
        × IsProvedRun policy inputs time run_id run v
  unfolding readback
  readback-reads run_id time inputs w h = after_action _ _ w h λ run w₁ read h₁.
      after_try _ _ w read
        (λ done.
          let valid =
            validate_run-IsProvedRun p policy run run_id time inputs
              (ap (λ (x : Result Value × W). x.0) h₁) in
          (run, done ∙ ap (λ x. (ok run, x)) (ap (λ (x : Result Value × W). x.1) h₁), valid))
        λ e w₂ _ raised. absurd (cc)

  read_back :
      (parameters : Value) (request_id accepted_at : String) (inputs : RecipeInputs)
      (time run_id : ℕ) (w : W) {v : Value} {w' : W}
      → validate_parameters p parameters policy request_id ≡ ok inputs
      → parse_timestamp (str accepted_at) ≡ ok time
      → readback p policy api_transport run_id time inputs w ≡ (ok v, w')
      → IsReadBack parameters request_id accepted_at v w'
  read_back parameters request_id accepted_at inputs time run_id w checked accepted h =
      let (run, read, proved) = readback-reads run_id time inputs w h in
      record {
        inputs = inputs;
        time = time;
        run_id = run_id;
        run = run;
        before = w;
        checked = checked;
        accepted = accepted;
        read = read;
        proved = proved;
      }

  -- A dispatch that returns has, with its last request, read a run with the title of the checked inputs,
  -- of the policy's workflow, actor and repository, created no earlier than five minutes before the
  -- acceptance; the result describes this run.
  pub dispatch_recipe-IsReadBack :
      (parameters : Value) (request_id accepted_at : String) (w : W) {v : Value} {w' : W}
      → dispatch_recipe p api_transport policy parameters request_id accepted_at w ≡ (ok v, w')
      → IsReadBack parameters request_id accepted_at v w'
  unfolding dispatch_recipe
  dispatch_recipe-IsReadBack parameters request_id accepted_at w h = after_lift _ _ w h λ _ _ h₁.
      after_lift _ _ w h₁ λ inputs checked h₂. after_lift _ _ w h₂ λ time accepted h₃.
        after_action _ _ w h₃ λ _ w₁ _ h₄. after_action _ _ w₁ h₄ λ _ w₂ _ h₅.
          after_lift _ _ w₂ h₅ λ run_id _ h₆.
            read_back parameters request_id accepted_at inputs time run_id w₂ checked accepted h₆

  -- A reconciliation that returns has, with its last request, read a run with the title of the checked
  -- inputs, of the policy's workflow, actor and repository, created no earlier than five minutes before
  -- the acceptance; the result describes this run.
  pub reconcile_recipe-IsReadBack :
      (parameters : Value) (request_id accepted_at : String) (w : W) {v : Value} {w' : W}
      → reconcile_recipe p api_transport policy parameters request_id accepted_at w ≡ (ok v, w')
      → IsReadBack parameters request_id accepted_at v w'
  unfolding reconcile_recipe
  reconcile_recipe-IsReadBack parameters request_id accepted_at w h = after_lift _ _ w h λ _ _ h₁.
      after_lift _ _ w h₁ λ inputs checked h₂. after_lift _ _ w h₂ λ time accepted h₃.
        after_action _ _ w h₃ λ _ w₁ _ h₄. after_action _ _ w₁ h₄ λ _ w₂ _ h₅.
          after_action _ _ w₂ h₅ λ _ w₃ _ h₆. after_lift _ _ w₃ h₆ λ _ _ h₇.
            after_lift _ _ w₃ h₇ λ _ _ h₈. after_lift _ _ w₃ h₈ λ run_id _ h₉.
              read_back parameters request_id accepted_at inputs time run_id w₃ checked accepted h₉
