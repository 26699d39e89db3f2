-- ===== src/Coordinator/Store.antt =====
-- How the coordinator of scripts/actions_journal_coordinator.py reads and writes the journal.
use zach.Common.{String}
use zach.Python.Value.{Value}
use zach.Action.{Action, or_raise, recode, pure, lift, ◌>>=◌, ◌>>◌}
use zach.Action.Error.{CoordinatorCode, coordinator_error}
use zach.Platform.{Platform}
use zach.Journal.Record.{
  JournalSnapshot, PublicationReceipt, validate_request_id, parse_and_validate_record,
}
use zach.Journal.Api.{Transport}
use zach.Journal.Load.{load}
use zach.Journal.Publish.{text, publish}
use zach.Coordinator.Results.{exact_transition}

module _ {B W : Type 0} (p : Platform B) (request : Transport W) where
  unfoldable pub load_snapshot : String → Action W JournalSnapshot
  load_snapshot request_id = do
    lift (
        recode (coordinator_error CoordinatorCode.invalid_request_id)
          (validate_request_id request_id))
    load p request request_id

  unfoldable pub publish_record : JournalSnapshot → String → String → Action W PublicationReceipt
  publish_record snapshot request_id new_record =
      publish p request (exact_transition snapshot.record_json new_record) snapshot request_id
        (text new_record)

  -- `load_record`: the head and the record as a value.
  unfoldable pub load_record : String → Action W (String × Value)
  load_record request_id = do
    snapshot ← load_snapshot request_id
    stored ←
        lift (or_raise snapshot.record_json (coordinator_error CoordinatorCode.request_not_found))
    parsed ← lift (
        recode (coordinator_error CoordinatorCode.stored_record_invalid)
          (parse_and_validate_record p stored request_id))
    pure (snapshot.head_sha, parsed)
