-- ===== src/Coordinator/Claimed.antt =====
-- What the result of a claim means.
use mathlib.Core.Path.{subst₂}
use zach.Common.{◌≡◌, ◌≢◌, ◌⊎◌, inl, inr, refl, ap, some, String, arith}
use zach.Python.Value.{Value, get, str}
use zach.Action.{Result, ok, require, or_raise}
use zach.Action.Error.{CoordinatorCode}
use zach.Action.Checks.{after_require, require-ok, or_raise-ok}
use zach.Action.Inversion.{after_action, after_lift, after_if, ok-injective}
use zach.Platform.{Platform}
use zach.Journal.Record.{JournalSnapshot, PublicationReceipt}
use zach.Journal.Api.{Transport}
use zach.Journal.Parsed.{eq_str_sound}
use zach.Journal.Publish.{text}
use zach.Journal.Receipt.{Receipted, publish-Receipted}
use zach.Coordinator.Policy.{validate_execution_id}
use zach.Coordinator.Cli.{Host, with_directory}
use zach.Coordinator.Results.{
  ClaimDisposition, granted, reconciliation_required, terminal_replay, ClaimResult,
  exact_transition, is_exit, unchanged_claim,
}
use zach.Coordinator.Store.{load_snapshot, publish_record}
use zach.Coordinator.Printed.{after_with_directory, run_claim-loads}
use zach.Coordinator.Claim.{run_claim, grant_claim, claim}

-- A grant has been stored: the publication of exactly the granted record returned a receipt in the
-- final state, and that record is in the state `executing` for the claimant.
pub record IsGranted {B W : Type 0} (p : Platform B) (request : Transport W)
    (request_id execution_id : String) (result : ClaimResult) (last : W) : Type 0 where
  pub snapshot : JournalSnapshot
  pub receipt : PublicationReceipt
  pub parsed : Value
  pub before : W
  pub published :
      publish_record p request snapshot request_id result.record_json before ≡ (ok receipt, last)
  pub proved : Receipted p request snapshot request_id before receipt last
  pub revision : result.durable_revision ≡ receipt.commit_sha
  pub parses : p.loads result.record_json ≡ some parsed
  pub executing : get "state" parsed ≡ str "executing"
  pub owned : get "execution_id" parsed ≡ str execution_id

-- Any other answer repeats the record and the head of the snapshot that was loaded.
pub record IsUnchanged {B W : Type 0} (p : Platform B) (request : Transport W) (request_id : String)
    (result : ClaimResult) (w : W) : Type 0 where
  pub snapshot : JournalSnapshot
  pub loaded : (load_snapshot p request request_id w).0 ≡ ok snapshot
  pub stored : snapshot.record_json ≡ some result.record_json
  pub revision : result.durable_revision ≡ snapshot.head_sha

abbrev pub Claimed :
    {B W : Type 0} → Platform B → Transport W → String → String → W → ClaimResult → W → Type 0
Claimed p request request_id execution_id w result last =
    ((result.disposition ≡ granted) × IsGranted p request request_id execution_id result last)
    ⊎ ((result.disposition ≢ granted) × IsUnchanged p request request_id result w)

module _ {B W : Type 0} (p : Platform B) (request : Transport W) where
  published-Receipted :
      (snapshot : JournalSnapshot) (request_id content : String) (w : W)
      {receipt : PublicationReceipt} {last : W}
      → publish_record p request snapshot request_id content w ≡ (ok receipt, last)
      → Receipted p request snapshot request_id w receipt last
  unfolding publish_record
  published-Receipted snapshot request_id content w h =
      publish-Receipted p request (exact_transition snapshot.record_json content) snapshot
        request_id (text content) w h

  grant_claim-IsGranted :
      (snapshot : JournalSnapshot) (request_id execution_id : String) (candidate : String × Value)
      (w : W) {result : ClaimResult} {last : W}
      → p.loads candidate.0 ≡ some candidate.1
      → grant_claim p request snapshot request_id execution_id candidate w ≡ (ok result, last)
      → (result.disposition ≡ granted) × IsGranted p request request_id execution_id result last
  unfolding grant_claim
  grant_claim-IsGranted snapshot request_id execution_id candidate w {result} {last} loads h =
      after_lift (require _ _) _ w h λ _ good h₁.
        after_action (publish_record p request snapshot request_id candidate.0) _ w h₁
          λ receipt w₁ done h₂.
            let shown = require-ok _ _ good in
            let (is_result, is_last) = ok-injective h₂ in
            subst₂
              (λ r v. (r.disposition ≡ granted) × IsGranted p request request_id execution_id r v)
              is_result is_last
              (
                refl,
                record {
                  snapshot = snapshot;
                  receipt = receipt;
                  parsed = candidate.1;
                  before = w;
                  published = done;
                  proved = published-Receipted snapshot request_id candidate.0 w done;
                  revision = refl;
                  parses = loads;
                  executing = eq_str_sound (get "state" candidate.1) "executing" (ground arith);
                  owned = eq_str_sound (get "execution_id" candidate.1) execution_id (ground arith);
                },
              )

  unchanged_claim-IsUnchanged :
      (request_id : String) (snapshot : JournalSnapshot) (stored candidate : String)
      (code : CoordinatorCode) (disposition : ClaimDisposition) (w : W) {result : ClaimResult}
      → disposition ≢ granted
      → (load_snapshot p request request_id w).0 ≡ ok snapshot
      → snapshot.record_json ≡ some stored
      → unchanged_claim request_id snapshot stored candidate code disposition ≡ ok result
      → (result.disposition ≢ granted) × IsUnchanged p request request_id result w
  unfolding unchanged_claim
  unchanged_claim-IsUnchanged request_id snapshot stored candidate code disposition w other loaded
        found h =
      after_require _ _ _ h λ _ h₁. (
        λ e. other (ground arith),
        record {
          snapshot = snapshot;
          loaded = loaded;
          stored = ground arith;
          revision = ground arith;
        },
      )

module _ {B W : Type 0} (p : Platform B) (request : Transport W) (host : Host B W)
    (cli : String) where
  -- A claim that returns has either been granted, and then exactly the returned record, which is in the
  -- state `executing` for the claimant, was durably published with the proof that its receipt carries;
  -- or it answers with the record and the head of the loaded snapshot, unchanged.
  pub claim-Claimed :
      (request_id execution_id : String) (w : W) {result : ClaimResult} {last : W}
      → claim p request host cli request_id execution_id w ≡ (ok result, last)
      → Claimed p request request_id execution_id w result last
  unfolding claim
  claim-Claimed request_id execution_id w {result} {last} h =
      after_lift (validate_execution_id execution_id) _ w h λ _ _ h₁.
        after_action (load_snapshot p request request_id) _ w h₁ λ snapshot w₁ loaded h₂.
          after_lift (or_raise snapshot.record_json _) _ w₁ h₂ λ stored found h₃.
            let present = or_raise-ok snapshot.record_json _ found in
            let known : (load_snapshot p request request_id w).0 ≡ ok snapshot =
              ap (λ (x : Result JournalSnapshot × W). x.0) loaded in
            after_action (with_directory host (run_claim p host cli request_id execution_id stored))
              _ w₁ h₃
              λ ran w₂ done h₄.
                let loads = after_with_directory host _ w₁ done λ directory v₁ v₂ run.
                  run_claim-loads p host cli request_id execution_id stored directory v₁ run in
                after_if (is_exit 75 ran.0) _ _ w₂ h₄
                  (λ _ h₅. inr (
                    unchanged_claim-IsUnchanged p request request_id snapshot stored ran.1.0 _
                      reconciliation_required w (λ e. cc) known present
                      (ap (λ (x : Result ClaimResult × W). x.0) h₅)))
                  λ _ h₅.
                    after_if (is_exit 10 ran.0) _ _ w₂ h₅
                      (λ _ h₆. inr (
                        unchanged_claim-IsUnchanged p request request_id snapshot stored ran.1.0 _
                          terminal_replay w (λ e. cc) known present
                          (ap (λ (x : Result ClaimResult × W). x.0) h₆)))
                      λ _ h₆. inl (
                        grant_claim-IsGranted p request snapshot request_id execution_id ran.1 w₂
                          loads h₆)
