-- ===== src/Tests/HandlerToy.antt =====
-- A platform with four JSON texts, an issue with one comment, and a coordinator, to run the request
-- handler on.
use zach.Common.{
  ◌≡◌, Bool, true, false, Option, none, some, [], ◌∷◌, String, ◌⊹◌, count, str_eq, if◌then◌else◌,
}
use zach.Python.Value.{Value, null, int, str, list, dict, items_of, end, get}
use zach.Python.Plain.{object}
use zach.Action.{Result, ok, err}
use zach.Action.Error.{api_error, other_exception}
use zach.Platform.{Platform}
use zach.Journal.Api.{Method, get_method, post_method, patch_method, Transport}
use zach.Handler.Bundle.{TrustedReceiptPolicy, ExecutionBundle, to_dict}
use zach.Handler.Comment.{Issue, api_issue_url, comment_url, comment_path, page_path}
use zach.Action.Confined.{Confined}
use zach.Journal.Effects.{Any, Any-Raises}
use zach.Coordinator.Results.{JournalMutationResult}
use zach.Handler.Results.{ControlExecutionResult}
use zach.Handler.Trusted.{Match}
use zach.Handler.Effect.{ControlPhase, Outcome, receipt_envelope}
use zach.Handler.Phase.{PublisherPhase, Coordinator}
use zach.Handler.Receipt.{ReceiptBinding}
use zach.Tests.Toy.{toy}

abbrev pub sha_a : String
sha_a = "aaaaaaaaaaaaaaaaaaaaaaaaaaaaaaaaaaaaaaaa"

abbrev pub sha_b : String
sha_b = "bbbbbbbbbbbbbbbbbbbbbbbbbbbbbbbbbbbbbbbb"

abbrev pub digest_c : String
digest_c = "cccccccccccccccccccccccccccccccccccccccccccccccccccccccccccccccc"

abbrev pub repository : String
repository = "shockerqt/workspace-governance"

abbrev pub bundle1 : ExecutionBundle
bundle1 = record {
  request_id = "request-1";
  request_digest = digest_c;
  operation = str "workspace.clean";
  repository_id = 3;
  repository_full_name = repository;
  issue_id = 4;
  issue_number = 7;
  execution_id = "run-1";
  canonical_record = "R";
  accepted_revision = sha_a;
  claim_revision = sha_b;
  parameters = end;
}

-- The record of the journal, named R, and the request in it, named Q.
abbrev pub record1 : Value
record1 = object (
    ("request_id", str "request-1")
    ∷ ("request_digest", str digest_c)
    ∷ ("operation", str "workspace.clean")
    ∷ ("repository_id", int 3)
    ∷ ("repository_full_name", str repository)
    ∷ ("issue_id", int 4)
    ∷ ("issue_number", int 7)
    ∷ ("execution_id", str "run-1")
    ∷ ("canonical_request", str "Q")
    ∷ ("state", str "executing")
    ∷ [])

abbrev pub request1 : Value
request1 = object (("parameters", dict end) ∷ [])

-- The envelope of the receipt, named E.
abbrev pub envelope1 : Value
envelope1 = object (
    ("schema_version", int 1)
    ∷ ("kind", str "actions.request.receipt")
    ∷ ("request_id", str "request-1")
    ∷ ("request_digest", str digest_c)
    ∷ ("operation", str "workspace.clean")
    ∷ ("accepted_revision", str sha_a)
    ∷ ("claim_revision", str sha_b)
    ∷ ("terminal_state", str "rejected")
    ∷ ("terminal_code", str "unsupported_operation")
    ∷ ("result", dict end)
    ∷ [])

-- The envelope of a prepared bundle, named P.
abbrev pub envelope2 : Value
envelope2 = object (
    ("schema_version", int 1)
    ∷ ("kind", str "actions.publisher.prepare")
    ∷ ("bundle", to_dict bundle1)
    ∷ ("disposition", str "granted")
    ∷ [])

abbrev toy_loads : String → Option Value
toy_loads s =
    if str_eq s "R"
    then some record1
    else if str_eq s "Q"
    then some request1
    else if str_eq s "E"
    then some envelope1
    else if str_eq s "P"
    then some envelope2
    else none

-- Envelopes of receipts are written as E, those of the Publisher as P.
abbrev pub toy2 : Platform String
toy2 = record {
  size = count;
  concat = toy.concat;
  split_newline = toy.split_newline;
  encode = λ s. s;
  decode = some;
  b64encode = λ s. s;
  b64decode = some;
  sha256_hex = λ s. digest_c;
  sha1_hex = λ s. sha_a;
  split = λ s. s ∷ [];
  loads = toy_loads;
  dumps = λ v. some "{}";
  dumps_strict = λ b v. some "{}";
  dumps_pretty = λ b v. some (if b then "E" else "P");
  dumps_sorted = λ v. some "{}";
  quote = λ s. s;
  format = λ v. "x";
}

abbrev pub policy1 : TrustedReceiptPolicy
policy1 = record { app_id = 11; bot_user_id = 12 }

abbrev pub issue1 : Issue
issue1 = record { repository = repository; number = "7" }

-- The comment 5 of the issue, by the trusted author.
abbrev pub comment1 : Value → Value
comment1 body = object (
    ("id", int 5)
    ∷ ("body", body)
    ∷ ("user", object (("id", int 12) ∷ ("type", str "Bot") ∷ []))
    ∷ ("performed_via_github_app", object (("id", int 11) ∷ []))
    ∷ ("issue_url", str (api_issue_url issue1))
    ∷ ("html_url", str (comment_url issue1 5))
    ∷ [])

-- The world: the body of the issue's one comment, or null, and whether the request has ended.
abbrev pub World : Type 0
World = Value × Bool

abbrev listed : Value → Value
listed null = list (items_of [])
listed body = list (items_of (comment1 body ∷ []))

abbrev answer : Method → String → Value → World → Result Value
answer get_method path body w =
    if str_eq path (page_path issue1 1)
    then ok (listed w.0)
    else if str_eq path (comment_path issue1 5)
    then ok (comment1 w.0)
    else err (api_error 404)
answer post_method path body w = ok (comment1 (get "body" body))
answer patch_method path body w = err (api_error 403)

abbrev after : Method → Value → World → World
after post_method body w = (get "body" body, w.1)
after _ body w = w

abbrev pub api1 : Transport World
api1 method path body w = (answer method path body w, after method body w)

abbrev pub control1 : ControlPhase World
control1 = record {
  api_transport = api1;
  trusted_receipt_policy = policy1;
  ci_policy = none;
  recipe_policy = none;
  ledger_candidate = none;
}

abbrev pub binding1 : ReceiptBinding
binding1 = record {
  request_id = str "request-1";
  request_digest = str digest_c;
  operation = str "workspace.clean";
  accepted_revision = some sha_a;
  claim_revision = some sha_b;
}

abbrev pub receipt_text : String
receipt_text =
    "<!-- zach-actions:receipt:v1:request_id=request-1:digest=" ⊹ digest_c
    ⊹ ":op=workspace.clean:accepted_revision=" ⊹ sha_a ⊹ ":claim_revision=" ⊹ sha_b
    ⊹ " -->\n```json\nE\n```\n"

abbrev pub prepare_text : String
prepare_text =
    "<!-- zach-actions:publisher-prepare:v1:request_id=request-1:digest=" ⊹ digest_c
    ⊹ ":execution_digest=" ⊹ digest_c ⊹ ":accepted_revision=" ⊹ sha_a ⊹ ":claim_revision=" ⊹ sha_b
    ⊹ " -->\n```json\nP\n```\n"

abbrev pub mutation1 : JournalMutationResult
mutation1 = record {
  request_id = "request-1";
  durable_revision = sha_a;
  record_json = "R";
  replayed = false;
}

-- The coordinator of the one request, whose completion sets the flag.
abbrev pub coordinator1 : Coordinator String World
coordinator1 = record {
  accept = λ event policy accepted_at revision w. (err other_exception, w);
  claim = λ request_id execution_id w. (err other_exception, w);
  complete = λ request_id execution_id state code reference w. (ok mutation1, (w.0, true));
  mark_ambiguous = λ request_id execution_id w. (ok mutation1, w);
  reconcile = λ request_id execution_id observation w. (ok mutation1, (w.0, true));
  load_record = λ request_id w. (ok (sha_b, record1), w);
}

abbrev pub publisher1 : PublisherPhase String World
publisher1 = record {
  coordinator = coordinator1;
  trusted_issue_policy = record {
    repository_id = 3;
    repository_full_name = repository;
    allowed_actor_ids = 9 ∷ [];
  };
  trusted_receipt_policy = policy1;
  trusted_publisher_policy = none;
  ledger_publisher = none;
  read_api_transport = api1;
}

-- The request has not ended.
abbrev pub IsOpen : World → Type 0
IsOpen w = w.1 ≡ false

after-IsOpen :
    (method : Method) (body : Value) (w : World) → IsOpen w → IsOpen (after method body w)
after-IsOpen post_method body w h = h
after-IsOpen get_method body w h = h
after-IsOpen patch_method body w h = h

pub api1-IsOpen :
    (method : Method) (path : String) (body : Value) → Confined IsOpen Any (api1 method path body)
api1-IsOpen method path body = record {
  keeps = λ w h. after-IsOpen method body w h;
  raises = λ w h. Any-Raises (answer method path body w);
}

-- The state of the world after a receipt.
abbrev pub with_receipt : World
with_receipt = (str receipt_text, false)

abbrev pub without_comment : World
without_comment = (null, false)

abbrev pub match1 : Match
match1 = record { envelope = envelope1; comment = comment1 (str receipt_text); comment_id = 5 }

abbrev pub outcome1 : Outcome
outcome1 = record {
  terminal_state = "rejected";
  terminal_code = str "unsupported_operation";
  result =
      object (("error", str "unsupported_operation") ∷ ("operation", str "workspace.clean") ∷ []);
}

abbrev pub result1 : ControlExecutionResult
result1 = record {
  request_id = "request-1";
  execution_id = "run-1";
  terminal_state = some (str "rejected");
  terminal_code = some (str "unsupported_operation");
  terminal_reference = some (comment_url issue1 5);
  envelope = some (receipt_envelope bundle1 outcome1);
  ambiguous = false;
  ambiguous_code = none;
  replayed = false;
}
