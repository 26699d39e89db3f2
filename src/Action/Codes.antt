-- ===== src/Action/Codes.antt =====
-- The codes of the exceptions as the texts of the source.
use zach.Common.{String}
use zach.Action.Error.{CoordinatorCode, CiCode, RecipeCode}

abbrev pub coordinator_code : CoordinatorCode → String
coordinator_code CoordinatorCode.invalid_policy = "invalid_policy"
coordinator_code CoordinatorCode.invalid_execution_id = "invalid_execution_id"
coordinator_code CoordinatorCode.invalid_cli_argument = "invalid_cli_argument"
coordinator_code CoordinatorCode.cli_failed = "cli_failed"
coordinator_code CoordinatorCode.invalid_cli_result = "invalid_cli_result"
coordinator_code CoordinatorCode.cli_output_too_large = "cli_output_too_large"
coordinator_code CoordinatorCode.cli_validation_failed = "cli_validation_failed"
coordinator_code CoordinatorCode.cli_io_failed = "cli_io_failed"
coordinator_code CoordinatorCode.cli_unexpected_stderr = "cli_unexpected_stderr"
coordinator_code CoordinatorCode.cli_record_output_invalid = "cli_record_output_invalid"
coordinator_code CoordinatorCode.invalid_request_id = "invalid_request_id"
coordinator_code CoordinatorCode.invalid_event = "invalid_event"
coordinator_code CoordinatorCode.invalid_acceptance_metadata = "invalid_acceptance_metadata"
coordinator_code CoordinatorCode.cli_acceptance_mismatch = "cli_acceptance_mismatch"
coordinator_code CoordinatorCode.replay_record_changed = "replay_record_changed"
coordinator_code CoordinatorCode.request_not_found = "request_not_found"
coordinator_code CoordinatorCode.reconciliation_record_changed = "reconciliation_record_changed"
coordinator_code CoordinatorCode.terminal_replay_record_changed = "terminal_replay_record_changed"
coordinator_code CoordinatorCode.claim_candidate_invalid = "claim_candidate_invalid"
coordinator_code CoordinatorCode.invalid_terminal_state = "invalid_terminal_state"
coordinator_code CoordinatorCode.invalid_terminal_code = "invalid_terminal_code"
coordinator_code CoordinatorCode.invalid_terminal_reference = "invalid_terminal_reference"
coordinator_code CoordinatorCode.stored_record_invalid = "stored_record_invalid"
coordinator_code CoordinatorCode.execution_owner_mismatch = "execution_owner_mismatch"
coordinator_code CoordinatorCode.execution_owner_changed = "execution_owner_changed"
coordinator_code CoordinatorCode.private_input_failed = "private_input_failed"

abbrev pub ci_code : CiCode → String
ci_code CiCode.invalid_policy = "invalid_policy"
ci_code CiCode.invalid_parameters = "invalid_parameters"
ci_code CiCode.repository_not_allowed = "repository_not_allowed"
ci_code CiCode.invalid_source_sha = "invalid_source_sha"
ci_code CiCode.api_request_failed = "api_request_failed"
ci_code CiCode.malformed_run = "malformed_run"
ci_code CiCode.foreign_run = "foreign_run"
ci_code CiCode.malformed_pagination = "malformed_pagination"
ci_code CiCode.incomplete_pagination = "incomplete_pagination"
ci_code CiCode.pagination_changed = "pagination_changed"
ci_code CiCode.malformed_job = "malformed_job"
ci_code CiCode.foreign_job = "foreign_job"
ci_code CiCode.result_encoding_failed = "result_encoding_failed"
ci_code CiCode.result_too_large = "result_too_large"
ci_code CiCode.repository_identity_mismatch = "repository_identity_mismatch"
ci_code CiCode.workflow_identity_mismatch = "workflow_identity_mismatch"
ci_code CiCode.commit_identity_mismatch = "commit_identity_mismatch"
ci_code CiCode.run_changed = "run_changed"

abbrev pub recipe_code : RecipeCode → String
recipe_code RecipeCode.invalid_recipe_policy = "invalid_recipe_policy"
recipe_code RecipeCode.recipe_not_allowed = "recipe_not_allowed"
recipe_code RecipeCode.invalid_request_id = "invalid_request_id"
recipe_code RecipeCode.invalid_recipe_parameters = "invalid_recipe_parameters"
recipe_code RecipeCode.recipe_operation_not_allowed = "recipe_operation_not_allowed"
recipe_code RecipeCode.invalid_recipe_source = "invalid_recipe_source"
recipe_code RecipeCode.invalid_recipe_artifact_digest = "invalid_recipe_artifact_digest"
recipe_code RecipeCode.invalid_recipe_expected_current = "invalid_recipe_expected_current"
recipe_code RecipeCode.invalid_recipe_artifact_identity = "invalid_recipe_artifact_identity"
recipe_code RecipeCode.invalid_recipe_transport_digest = "invalid_recipe_transport_digest"
recipe_code RecipeCode.recipe_preflight_failed = "recipe_preflight_failed"
recipe_code RecipeCode.recipe_result_invalid = "recipe_result_invalid"
recipe_code RecipeCode.recipe_result_too_large = "recipe_result_too_large"
recipe_code RecipeCode.invalid_recipe_acceptance_time = "invalid_recipe_acceptance_time"
recipe_code RecipeCode.recipe_repository_identity_mismatch = "recipe_repository_identity_mismatch"
recipe_code RecipeCode.recipe_workflow_identity_mismatch = "recipe_workflow_identity_mismatch"
recipe_code RecipeCode.recipe_dispatch_readback_ambiguous = "recipe_dispatch_readback_ambiguous"
recipe_code RecipeCode.recipe_reconciliation_malformed = "recipe_reconciliation_malformed"
recipe_code RecipeCode.recipe_reconciliation_api_failed = "recipe_reconciliation_api_failed"
recipe_code RecipeCode.recipe_reconciliation_duplicate_run = "recipe_reconciliation_duplicate_run"
recipe_code RecipeCode.recipe_reconciliation_incomplete = "recipe_reconciliation_incomplete"
recipe_code RecipeCode.recipe_reconciliation_pagination_exceeded =
    "recipe_reconciliation_pagination_exceeded"
recipe_code RecipeCode.recipe_dispatch_rejected = "recipe_dispatch_rejected"
recipe_code RecipeCode.recipe_dispatch_ambiguous = "recipe_dispatch_ambiguous"
recipe_code RecipeCode.recipe_dispatch_response_ambiguous = "recipe_dispatch_response_ambiguous"
recipe_code RecipeCode.recipe_reconciliation_unstable = "recipe_reconciliation_unstable"
recipe_code RecipeCode.recipe_reconciliation_not_found = "recipe_reconciliation_not_found"
recipe_code RecipeCode.recipe_reconciliation_multiple_runs = "recipe_reconciliation_multiple_runs"
