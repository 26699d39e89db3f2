-- ===== src/Tests/CoordinatorRuns.antt =====
-- The coordinator at concrete inputs.
use zach.Common.{ℕ, ◌≡◌, ◌⊎◌, refl, Bool, true, false, Option, none, some, List, [], ◌∷◌, String}
use zach.Python.Json.{hooked, hooked_items, hooked_fields, reject_duplicate_keys}
use zach.Action.{ok, bind, require, or_raise, recode, try, ◌>>=◌}
use zach.Platform.{join, git_blob_sha}
use zach.Journal.Record.{
  validate_request_id, is_request_id, validate_sha40, is_sha40, record_path_for_request_id,
  parse_and_validate_record, extract_ref_sha, extract_tree_sha, decoded,
}
use zach.Journal.Contents.{
  entries_at, select_entry, tree_entry, checked_size, checked_text, checked_record,
}
use zach.Journal.Load.{at_level, regular_blob_sha, read_contents, snapshot_of, load_at, load}
use zach.Journal.Publish.{
  is_single_parent, parent_sha, confirms, optional_sha40, record_text, proposed_record,
  same_snapshot, move_ref, readback, create_candidate, write_record, publish,
}
use zach.Coordinator.Policy.{TrustedIssuePolicy, is_execution_id, validate_execution_id}
use zach.Coordinator.Cli.{
  checked_result, single_line, printed_record, record_from_stdout, invoke, write_private,
  with_directory,
}
use zach.Coordinator.Results.{ClaimResult, granted}
use zach.Coordinator.Store.{load_snapshot, publish_record}
use zach.Coordinator.Claim.{run_claim, grant_claim, claim}
use zach.Coordinator.Owner.{owned_mutation}
use zach.Coordinator.Writes.{ClaimWrite, OwnerWrite, claim-Writes, owned_mutation-Writes}
use zach.Coordinator.Claimed.{Claimed, claim-Claimed}
use zach.Tests.Toy.{
  toy, remote, remote_of, child, start, head3, request_id, execution_id, IsUnmoved, remote-reads,
  child-keeps,
}

abbrev grant : ClaimResult
grant = record {
  request_id = request_id;
  durable_revision = head3;
  record_json = "R1";
  disposition = granted;
}

claims_the_request :
    claim toy remote (child "R1;") "cli" request_id execution_id start ≡ (ok grant, (7, true))
unfolding claim grant_claim run_claim load_snapshot publish_record validate_execution_id
    is_execution_id checked_result single_line printed_record record_from_stdout invoke
    write_private with_directory publish proposed_record optional_sha40 record_text same_snapshot
    write_record create_candidate move_ref readback confirms is_single_parent parent_sha load
    load_at regular_blob_sha at_level read_contents snapshot_of tree_entry select_entry entries_at
    checked_record checked_size checked_text validate_request_id is_request_id validate_sha40
    is_sha40 record_path_for_request_id parse_and_validate_record extract_ref_sha extract_tree_sha
    decoded hooked hooked_items hooked_fields reject_duplicate_keys bind require or_raise recode try
    ◌>>=◌ join git_blob_sha zach.Common.all_codes zach.Common.split_slash zach.Common.starts
    zach.Python.Json.◌>>=◌ zach.Common.lower_starts zach.Common.count_code
claims_the_request = refl

claim-Claimed_example : Claimed toy remote request_id execution_id start grant (7, true)
claim-Claimed_example =
    claim-Claimed toy remote (child "R1;") "cli" request_id execution_id start claims_the_request

claim-Writes_example :
    IsUnmoved (claim toy remote (child "R1;") "cli" request_id execution_id start).1
    ⊎ ClaimWrite toy remote (child "R1;") "cli" request_id execution_id start
claim-Writes_example =
    claim-Writes toy remote IsUnmoved (remote-reads "R0") (child "R1;") (child-keeps "R1;") "cli"
      request_id execution_id start refl

owned_mutation-Writes_example :
    IsUnmoved
      (owned_mutation toy
        (remote_of "R1")
        (child "R2;")
        "cli"
        request_id
        execution_id
        "complete"
        ("--state" ∷ "succeeded" ∷ "--code" ∷ "done" ∷ [])
        none
        start).1
    ⊎ OwnerWrite toy
        (remote_of "R1")
        (child "R2;")
        "cli"
        request_id
        execution_id
        "complete"
        ("--state" ∷ "succeeded" ∷ "--code" ∷ "done" ∷ [])
        none
        start
owned_mutation-Writes_example =
    owned_mutation-Writes toy (remote_of "R1") IsUnmoved (remote-reads "R1") (child "R2;")
      (child-keeps "R2;") "cli" request_id execution_id "complete"
      ("--state" ∷ "succeeded" ∷ "--code" ∷ "done" ∷ []) none start refl

abbrev trusted : TrustedIssuePolicy
trusted = record {
  repository_id = 5;
  repository_full_name = "owner/name";
  allowed_actor_ids = 9 ∷ [];
}
