-- ===== src/Coordinator/Acceptance.antt =====
-- What an acceptance has established before it writes to the journal.
use zach.Common.{◌≡◌, true, none, some, String}
use zach.Python.Value.{Value, get, as_str}
use zach.Action.{ok}
use zach.Action.Confined.{Confined}
use zach.Platform.{Platform}
use zach.Journal.Record.{JournalSnapshot}
use zach.Journal.Api.{Transport}
use zach.Coordinator.Policy.{TrustedIssuePolicy}
use zach.Coordinator.Cli.{record_from_stdout}
use zach.Coordinator.Results.{is_acceptance_of}
use zach.Coordinator.Store.{load_snapshot}
use zach.Coordinator.Writes.{RecordGate}

-- A write of `accept`: the journal held no record of the request, and the JSON value of the
-- text that is written, which the child printed, repeats the policy and the metadata, names the request, and
-- is in the state `accepted` with no execution and no outcome.
pub record AcceptWrite {B W : Type 0} (p : Platform B) (request : Transport W)
    (policy : TrustedIssuePolicy) (accepted_at policy_revision : String) : Type 0 where
  pub request_id : String
  pub snapshot : JournalSnapshot
  pub candidate : String × Value
  pub before : W
  pub at : W
  pub stdout : B
  pub printed : record_from_stdout p stdout none ≡ ok candidate
  pub loads : p.loads candidate.0 ≡ some candidate.1
  pub matches : is_acceptance_of policy accepted_at policy_revision candidate.1 ≡ true
  pub names : as_str (get "request_id" candidate.1) ≡ some request_id
  pub loaded : (load_snapshot p request request_id before).0 ≡ ok snapshot
  pub absent : snapshot.record_json ≡ none
  pub gate : RecordGate p request snapshot request_id candidate.0 at
