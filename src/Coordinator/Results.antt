-- ===== src/Coordinator/Results.antt =====
-- The results of the coordinator's operations, and the tests that these make on records and exit codes.
use zach.Common.{
  ℕ, Bool, false, not, ◌&&◌, ◌||◌, Option, none, some, List, [], ◌∷◌, String, count, leb, ◌==◌,
  str_eq, is_ascii, starts, show,
}
use zach.Python.Value.{Value, bool, get, is_null, eq_str, eq_int}
use zach.Action.{Result, ok, bind, require}
use zach.Action.Error.{CoordinatorCode, coordinator_error}
use zach.Journal.Record.{JournalSnapshot, is_sha40}
use zach.Journal.Publish.{TransitionValidator, opt_str_eq}
use zach.Coordinator.Policy.{TrustedIssuePolicy, validate_terminal_value}
use zach.Coordinator.Cli.{ReturnCode, exited, signalled}

pub data ClaimDisposition : Type 0 where
  granted reconciliation_required terminal_replay : ClaimDisposition

pub record AcceptanceResult : Type 0 where
  pub request_id : String
  pub durable_revision : String
  pub record_json : String
  pub replayed : Bool

pub record ClaimResult : Type 0 where
  pub request_id : String
  pub durable_revision : String
  pub record_json : String
  pub disposition : ClaimDisposition

pub record JournalMutationResult : Type 0 where
  pub request_id : String
  pub durable_revision : String
  pub record_json : String
  pub replayed : Bool

pub record TrustedReconciliationObservation : Type 0 where
  pub terminal_state : String
  pub terminal_code : String
  pub terminal_reference : Option String

-- `_ExactTransitionValidator(old_record, new_record)`
abbrev pub exact_transition : Option String → String → TransitionValidator
exact_transition old_record new_record old new =
    bool (opt_str_eq old old_record && str_eq new new_record)

-- The validation of `accepted_at` and `policy_revision`.
unfoldable pub is_acceptance_metadata : String → String → Bool
is_acceptance_metadata accepted_at policy_revision =
    is_ascii accepted_at
    && (leb 1 (count accepted_at) && leb (count accepted_at) 35)
    && not (starts accepted_at "--")
    && is_sha40 policy_revision

-- The candidate of an acceptance repeats the policy and is in its first state.
unfoldable pub is_acceptance_of : TrustedIssuePolicy → String → String → Value → Bool
is_acceptance_of policy accepted_at policy_revision candidate =
    eq_int (get "repository_id" candidate) policy.repository_id
    && eq_str (get "repository_full_name" candidate) policy.repository_full_name
    && eq_str (get "accepted_at" candidate) accepted_at
    && eq_str (get "policy_revision" candidate) policy_revision
    && eq_str (get "state" candidate) "accepted"
    && is_null (get "execution_id" candidate)
    && is_null (get "terminal_code" candidate)
    && is_null (get "terminal_reference" candidate)

abbrev pub is_terminal_state : String → Bool
is_terminal_state state = str_eq state "succeeded" || str_eq state "rejected"

abbrev pub policy_arguments : TrustedIssuePolicy → String → List String
policy_arguments policy actor_ids =
    "--event-name"
    ∷ "issues"
    ∷ "--repository-id"
    ∷ show policy.repository_id
    ∷ "--repository-full-name"
    ∷ policy.repository_full_name
    ∷ "--allowed-actor-ids"
    ∷ actor_ids
    ∷ []

unfoldable pub validate_reference : Option String → Result (Unit {0})
validate_reference none = ok tt
validate_reference (some reference) =
    validate_terminal_value reference 512 CoordinatorCode.invalid_terminal_reference

-- The checks of `complete` and `reconcile` on the outcome that is to be stored.
unfoldable pub validate_outcome : String → String → Option String → Result (Unit {0})
validate_outcome state terminal_code terminal_reference =
    bind
      (require (is_terminal_state state) (coordinator_error CoordinatorCode.invalid_terminal_state))
      λ _.
        bind (validate_terminal_value terminal_code 128 CoordinatorCode.invalid_terminal_code)
          λ _. validate_reference terminal_reference

abbrev pub reference_arguments : Option String → List String
reference_arguments none = []
reference_arguments (some reference) = "--reference" ∷ reference ∷ []

-- What `claim` makes of the child's exit status 10 or 75, which must return the stored record.
unfoldable pub unchanged_claim :
    String
    → JournalSnapshot
    → String
    → String
    → CoordinatorCode
    → ClaimDisposition
    → Result ClaimResult
unchanged_claim request_id snapshot stored candidate code disposition =
    bind (require (str_eq candidate stored) (coordinator_error code)) λ _. ok (record {
      request_id = request_id;
      durable_revision = snapshot.head_sha;
      record_json = stored;
      disposition = disposition;
    })

abbrev pub is_exit : ℕ → ReturnCode → Bool
is_exit n (exited m) = m == n
is_exit n (signalled m) = false
