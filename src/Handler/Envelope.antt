-- ===== src/Handler/Envelope.antt =====
-- The envelopes, bundles and results that the preparation of scripts/actions_request_handler.py makes.
use zach.Common.{
  zero, Bool, true, false, ◌&&◌, ◌||◌, Option, none, some, List, [], ◌∷◌, String, str_eq,
  if◌then◌else◌,
}
use zach.Python.Value.{
  Value, null, bool, int, float, str, list, dict, nil, end, has_key, get, eq_str,
}
use zach.Python.Equal.{value_eq}
use zach.Python.Plain.{item, object}
use zach.Action.{Result, ok, err, bind, require}
use zach.Action.Error.{Exc, handler_error, other_exception}
use zach.Platform.{Platform}
use zach.Coordinator.Results.{ClaimDisposition}
use zach.Handler.Bundle.{ExecutionBundle, construct, to_dict, validate_execution_bundle}
use zach.Handler.Results.{ExecutionReceipt, PrepareResult, DurablePrepareCheckpoint}
use zach.Handler.Marker.{PublisherKind}
use zach.Handler.Publisher.{is_hashable, envelope_kind}
use zach.Handler.Trusted.{Match}
use zach.Handler.Binding.{frozen_part}

-- `v or ""`
abbrev pub or_empty : Value → Value
or_empty null = str ""
or_empty (bool false) = str ""
or_empty (int zero) = str ""
or_empty (float s zero e) = str ""
or_empty (list nil) = str ""
or_empty (dict end) = str ""
or_empty v = v

-- The receipt of a request that had ended before.
unfoldable pub replayed_receipt : String → String → Value → Value → ExecutionReceipt
replayed_receipt request_id durable_revision state record' = record {
  request_id = request_id;
  durable_revision = durable_revision;
  terminal_state = state;
  terminal_code = or_empty (get "terminal_code" record');
  terminal_reference = get "terminal_reference" record';
  envelope = object [];
  replayed = true;
  reconciled = false;
}

-- `_terminal_replay`
unfoldable pub terminal_replay : String → String → Value → Result PrepareResult
terminal_replay request_id durable_revision record' = bind (item "state" record') λ state.
    ok (record {
      disposition = ClaimDisposition.terminal_replay;
      request_id = request_id;
      bundle = none;
      receipt = some (replayed_receipt request_id durable_revision state record');
    })

abbrev pub prepared : ClaimDisposition → String → Option ExecutionBundle → PrepareResult
prepared disposition request_id bundle = record {
  disposition = disposition;
  request_id = request_id;
  bundle = bundle;
  receipt = none;
}

abbrev pub request_keys : List String
request_keys =
    "request_id" ∷ "request_digest" ∷ "operation" ∷ "repository_id" ∷ "repository_full_name"
    ∷ "issue_id" ∷ "issue_number" ∷ []

-- `record[key]` for each key, which all must be there
unfoldable pub items_of_record : List String → Value → Result (List (String × Value))
items_of_record [] record' = ok []
items_of_record (key ∷ keys) record' =
    bind (item key record')
      λ v. bind (items_of_record keys record') λ entries. ok ((key, v) ∷ entries)

-- The call of `ExecutionBundle` with the fields of a record.
unfoldable pub bundle_of :
    Value → String → String → String → String → Value → Result ExecutionBundle
bundle_of record' record_json execution_id accepted_revision claim_revision parameters =
    bind (items_of_record request_keys record') λ entries. construct (
      object (
        ("execution_id", str execution_id)
        ∷ ("canonical_record", str record_json)
        ∷ ("accepted_revision", str accepted_revision)
        ∷ ("claim_revision", str claim_revision)
        ∷ ("parameters", parameters)
        ∷ entries))

-- `v.get(key, {})` of a dictionary; an `AttributeError` of what is none
unfoldable pub get_or_empty : String → Value → Result Value
get_or_empty key (dict fs) = if has_key key fs then ok (get key (dict fs)) else ok (dict end)
get_or_empty key _ = err other_exception

-- `_intent_envelope`
unfoldable pub intent_envelope : Value → String → String → Result Value
intent_envelope record' execution_id accepted_revision =
    bind (items_of_record request_keys record') λ entries.
      bind (item "policy_revision" record') λ policy_revision. ok (
        object (
          ("schema_version", int 1)
          ∷ ("kind", str (envelope_kind PublisherKind.intent))
          ∷ ("execution_id", str execution_id)
          ∷ ("accepted_revision", str accepted_revision)
          ∷ ("policy_revision", policy_revision)
          ∷ entries))

abbrev pub intent_fields : List String
intent_fields =
    "request_id" ∷ "request_digest" ∷ "operation" ∷ "repository_id" ∷ "repository_full_name"
    ∷ "issue_id" ∷ "issue_number" ∷ "policy_revision" ∷ []

-- `_validate_recovered_bundle`
unfoldable pub validate_recovered_bundle :
    {B : Type 0} → Platform B → ExecutionBundle → Value → Result (Unit {0})
validate_recovered_bundle p bundle current = bind (validate_execution_bundle p bundle) λ frozen.
    require
      (eq_str (get "execution_id" current) bundle.execution_id
        && value_eq (frozen_part frozen) (frozen_part current))
      (handler_error "publisher_prepare_checkpoint_journal_mismatch")

abbrev pub single_intent : List Match → Result Value
single_intent [] = err (handler_error "publisher_intent_missing_after_claim")
single_intent (m ∷ []) = ok m.envelope
single_intent (m ∷ n ∷ ms) = err (handler_error "duplicate_publisher_intents")

abbrev pub prepare_envelope : ClaimDisposition → ExecutionBundle → Value
prepare_envelope disposition bundle = object (
    ("schema_version", int 1)
    ∷ ("kind", str (envelope_kind PublisherKind.prepare))
    ∷ ("disposition", str (disposition_text disposition))
    ∷ ("bundle", to_dict bundle)
    ∷ [])
  where
    disposition_text : ClaimDisposition → String
    disposition_text ClaimDisposition.granted = "granted"
    disposition_text ClaimDisposition.reconciliation_required = "reconciliation_required"
    disposition_text ClaimDisposition.terminal_replay = "terminal_replay"

-- The exception of the search for a checkpoint that the resumption survives.
abbrev pub missing_checkpoint : Value → Exc → Result (Option DurablePrepareCheckpoint)
missing_checkpoint state (handler_error code) =
    if str_eq code "publisher_prepare_checkpoint_not_found"
    then if eq_str state "ambiguous"
      then err (handler_error "publisher_prepare_checkpoint_missing_after_effect")
      else ok none
    else err (handler_error code)
missing_checkpoint state e = err e

-- The test at the start of the resumption; the state is sought in a set, which a list or a dictionary is not.
unfoldable pub check_resumable : Value → String → Result (Unit {0})
check_resumable record' execution_id =
    bind (require (is_hashable (get "state" record')) other_exception) λ _.
      require
        ((eq_str (get "state" record') "executing" || eq_str (get "state" record') "ambiguous")
          && eq_str (get "execution_id" record') execution_id)
        (handler_error "publisher_prepare_resume_state_invalid")

abbrev pub is_ended : Value → Bool
is_ended state = eq_str state "succeeded" || eq_str state "rejected"
