-- ===== src/Tests/JournalRuns.antt =====
-- The journal at concrete inputs.
use zach.Common.{
  ℕ, ◌≡◌, ◌≤◌, ◌⊎◌, refl, Bool, true, false, Option, none, some, List, [], ◌∷◌, String,
}
use zach.Python.Value.{bool, str, get, is_dict}
use zach.Python.Json.{hooked, hooked_items, hooked_fields, reject_duplicate_keys}
use zach.Python.Json.Unique.{has_unique_keys, hooked-IsUnique}
use zach.Action.{ok, bind, require, or_raise, try, ◌>>=◌}
use zach.Action.Confined.{Confined}
use zach.Platform.{join, git_blob_sha}
use zach.Journal.Record.{
  validate_request_id, is_request_id, validate_sha40, is_sha40, record_path_for_request_id,
  parse_and_validate_record, extract_ref_sha, extract_tree_sha, decoded, max_record_bytes,
}
use zach.Journal.Api.{get_method}
use zach.Journal.Effects.{Any, publish-Confined}
use zach.Journal.Gate.{publish-Gate}
use zach.Journal.LostAnswer.{lossy, publish-lossy}
use zach.Journal.Receipt.{Receipted, publish-Receipted}
use zach.Journal.Snapshot.{IsRecorded, load-IsRecorded}
use zach.Journal.Parsed.{parse_and_validate_record_sound}
use zach.Journal.Contents.{
  entries_at, select_entry, tree_entry, checked_size, checked_text, checked_record,
}
use zach.Journal.Load.{at_level, regular_blob_sha, read_contents, snapshot_of, load_at, load}
use zach.Journal.Publish.{
  is_single_parent, parent_sha, confirms, optional_sha40, record_text, proposed_record,
  same_snapshot, move_ref, readback, create_candidate, write_record, publish, TransitionValidator,
  text,
}
use zach.Tests.Toy.{
  toy, remote, start, snapshot0, receipt1, request_id, executing_value, SevenIssues, remote-writes,
  remote-SevenIssues,
}

abbrev to_executing : TransitionValidator
to_executing old new = bool true

loads_the_record : load toy remote request_id start ≡ (ok snapshot0, start)
unfolding load load_at regular_blob_sha at_level read_contents snapshot_of tree_entry select_entry
    entries_at checked_record checked_size checked_text validate_request_id is_request_id
    validate_sha40 is_sha40 record_path_for_request_id parse_and_validate_record extract_ref_sha
    extract_tree_sha decoded hooked hooked_items hooked_fields reject_duplicate_keys bind require
    or_raise try ◌>>=◌ join git_blob_sha zach.Common.all_codes zach.Common.split_slash
    zach.Common.starts zach.Python.Json.◌>>=◌
loads_the_record = refl

load-IsRecorded_example :
    (is_sha40 snapshot0.head_sha ≡ true)
    × (is_sha40 snapshot0.tree_sha ≡ true)
    × IsRecorded toy request_id snapshot0
load-IsRecorded_example = load-IsRecorded toy remote request_id start loads_the_record

publishes_the_record :
    publish toy remote to_executing snapshot0 request_id (text "R1") start
    ≡ (ok receipt1, (7, true))
unfolding publish proposed_record optional_sha40 record_text same_snapshot write_record
    create_candidate move_ref readback confirms is_single_parent parent_sha load load_at
    regular_blob_sha at_level read_contents snapshot_of tree_entry select_entry entries_at
    checked_record checked_size checked_text validate_request_id is_request_id validate_sha40
    is_sha40 record_path_for_request_id parse_and_validate_record extract_ref_sha extract_tree_sha
    decoded hooked hooked_items hooked_fields reject_duplicate_keys bind require or_raise try ◌>>=◌
    join git_blob_sha zach.Common.all_codes zach.Common.split_slash zach.Common.starts
    zach.Python.Json.◌>>=◌
publishes_the_record = refl

publish-Receipted_example : Receipted toy remote snapshot0 request_id start receipt1 (7, true)
publish-Receipted_example =
    publish-Receipted toy remote to_executing snapshot0 request_id (text "R1") start
      publishes_the_record

publish-Confined_example :
    Confined SevenIssues Any (publish toy remote to_executing snapshot0 request_id (text "R1"))
publish-Confined_example =
    publish-Confined toy remote SevenIssues (remote-SevenIssues get_method) to_executing snapshot0
      request_id (text "R1") λ s path _ _. remote-writes snapshot0 request_id path s

publish-Gate_example :
    SevenIssues (publish toy remote to_executing snapshot0 request_id (text "R1") start).1
publish-Gate_example =
    publish-Gate toy remote SevenIssues (remote-SevenIssues get_method) to_executing snapshot0
      request_id (text "R1") start
      (λ gate path _. remote-writes snapshot0 request_id path gate.proposal) refl

publish-lossy_example :
    publish toy (lossy remote) to_executing snapshot0 request_id (text "R1")
    ≡ publish toy remote to_executing snapshot0 request_id (text "R1")
publish-lossy_example = publish-lossy toy remote to_executing snapshot0 request_id (text "R1")

parses_the_record : parse_and_validate_record toy "R1" request_id ≡ ok executing_value
unfolding parse_and_validate_record decoded hooked hooked_items hooked_fields reject_duplicate_keys
    bind require zach.Python.Json.◌>>=◌
parses_the_record = refl

parse_and_validate_record_sound_example :
    (toy.size (toy.encode "R1") ≤ max_record_bytes)
    × (toy.loads "R1" ≡ some executing_value)
    × (is_dict executing_value ≡ true)
    × (has_unique_keys executing_value ≡ true)
    × (get "request_id" executing_value ≡ str request_id)
parse_and_validate_record_sound_example =
    parse_and_validate_record_sound toy "R1" request_id parses_the_record

reads_the_record : hooked true executing_value ≡ some executing_value
unfolding hooked hooked_items hooked_fields reject_duplicate_keys zach.Python.Json.◌>>=◌
reads_the_record = refl

hooked-IsUnique_example :
    (executing_value ≡ executing_value) × (has_unique_keys executing_value ≡ true)
hooked-IsUnique_example = hooked-IsUnique true executing_value executing_value reads_the_record
