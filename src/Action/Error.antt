-- ===== src/Action/Error.antt =====
-- The exceptions of the scripts. A class that carries a code has a type of codes, in the words of the
-- source; the texts of messages are left out.
use zach.Common.{ℕ, String, Bool}

-- The codes of `CoordinatorError` in actions_journal_coordinator.py.
pub data CoordinatorCode : Type 0 where
  invalid_policy invalid_execution_id invalid_cli_argument cli_failed : CoordinatorCode
  invalid_cli_result cli_output_too_large cli_validation_failed cli_io_failed : CoordinatorCode
  cli_unexpected_stderr cli_record_output_invalid invalid_request_id : CoordinatorCode
  invalid_event invalid_acceptance_metadata cli_acceptance_mismatch : CoordinatorCode
  replay_record_changed request_not_found reconciliation_record_changed : CoordinatorCode
  terminal_replay_record_changed claim_candidate_invalid invalid_terminal_state : CoordinatorCode
  invalid_terminal_code invalid_terminal_reference stored_record_invalid : CoordinatorCode
  execution_owner_mismatch execution_owner_changed private_input_failed : CoordinatorCode

-- The codes of `CiInspectError` in actions_ci_inspect.py.
pub data CiCode : Type 0 where
  invalid_policy invalid_parameters repository_not_allowed invalid_source_sha : CiCode
  api_request_failed malformed_run foreign_run malformed_pagination : CiCode
  incomplete_pagination pagination_changed malformed_job foreign_job : CiCode
  result_encoding_failed result_too_large repository_identity_mismatch : CiCode
  workflow_identity_mismatch commit_identity_mismatch run_changed : CiCode

-- The codes of `RecipeDispatchError` in actions_recipe_dispatch.py.
pub data RecipeCode : Type 0 where
  invalid_recipe_policy recipe_not_allowed invalid_request_id : RecipeCode
  invalid_recipe_parameters recipe_operation_not_allowed invalid_recipe_source : RecipeCode
  invalid_recipe_artifact_digest invalid_recipe_expected_current : RecipeCode
  invalid_recipe_artifact_identity invalid_recipe_transport_digest : RecipeCode
  recipe_preflight_failed recipe_result_invalid recipe_result_too_large : RecipeCode
  invalid_recipe_acceptance_time recipe_repository_identity_mismatch : RecipeCode
  recipe_workflow_identity_mismatch recipe_dispatch_readback_ambiguous : RecipeCode
  recipe_reconciliation_malformed recipe_reconciliation_api_failed : RecipeCode
  recipe_reconciliation_duplicate_run recipe_reconciliation_incomplete : RecipeCode
  recipe_reconciliation_pagination_exceeded recipe_dispatch_rejected : RecipeCode
  recipe_dispatch_ambiguous recipe_dispatch_response_ambiguous : RecipeCode
  recipe_reconciliation_unstable recipe_reconciliation_not_found : RecipeCode
  recipe_reconciliation_multiple_runs : RecipeCode

pub data Exc : Type 0 where
  -- `ApiError(status)` of the transport
  api_error : ℕ → Exc
  -- the classes of actions_git_journal.py
  journal_error journal_validation_error stale_snapshot_conflict : Exc
  -- its candidate, base and tree
  ambiguous_publication : String → String → String → Exc
  coordinator_error : CoordinatorCode → Exc
  -- its code, and whether it is safe to repeat
  ci_inspect_error : CiCode → Bool → Exc
  -- its code, whether it is safe to repeat, and whether the effect is unknown
  recipe_dispatch_error : RecipeCode → Bool → Bool → Exc
  -- the code of `ActionsHandlerError` in actions_request_handler.py, some of which are computed
  handler_error : String → Exc
  -- any other exception of Python or of a library
  other_exception : Exc
