-- ===== src/Tests/Toy.antt =====
-- A platform whose byte strings are texts, a remote with one stored record, and a CLI that grants it.
use zach.Common.{
  ℕ, ◌≡◌, Bool, true, false, Option, none, some, List, [], ◌∷◌, String, ◌⊹◌, count, str_eq, starts,
  if◌then◌else◌,
}
use zach.Python.Value.{Value, null, bool, int, str, list, dict, items_of, fields_of}
use zach.Action.{Result, ok, err}
use zach.Action.Error.{api_error}
use zach.Action.Confined.{Confined}
use zach.Platform.{Platform}
use zach.Journal.Api.{
  Method, get_method, post_method, patch_method, Transport, repo_path, ref_path, commit_path,
  blobs_path, trees_path, commits_path, patch_path,
}
use zach.Journal.Effects.{Any, Any-Raises, KeptBy, KeptByWrites}
use zach.Journal.Record.{JournalSnapshot, PublicationReceipt}
use zach.Coordinator.Cli.{Host, exited}
use zach.Coordinator.Effects.{KeptByHost}

abbrev pub object : List (String × Value) → Value
object es = dict (fields_of es)

abbrev pub array : List Value → Value
array vs = list (items_of vs)

abbrev pub head0 : String
head0 = "0000000000000000000000000000000000000000"

abbrev pub tree1 : String
tree1 = "1111111111111111111111111111111111111111"

abbrev pub tree2 : String
tree2 = "2222222222222222222222222222222222222222"

abbrev pub head3 : String
head3 = "3333333333333333333333333333333333333333"

abbrev pub tree4 : String
tree4 = "4444444444444444444444444444444444444444"

abbrev pub blob5 : String
blob5 = "5555555555555555555555555555555555555555"

abbrev pub request_id : String
request_id = "request-1"

abbrev pub execution_id : String
execution_id = "run:1"

abbrev pub accepted_value : Value
accepted_value =
    object
      (("request_id", str request_id) ∷ ("state", str "accepted") ∷ ("execution_id", null) ∷ [])

abbrev pub executing_value : Value
executing_value = object (
    ("request_id", str request_id)
    ∷ ("state", str "executing")
    ∷ ("execution_id", str execution_id)
    ∷ [])

abbrev succeeded_value : Value
succeeded_value = object (
    ("request_id", str request_id)
    ∷ ("state", str "succeeded")
    ∷ ("execution_id", str execution_id)
    ∷ [])

-- The JSON texts are named R0, R1 and R2.
abbrev toy_loads : String → Option Value
toy_loads s =
    if str_eq s "R0"
    then some accepted_value
    else if str_eq s "R1"
    then some executing_value
    else if str_eq s "R2"
    then some succeeded_value
    else none

abbrev pub toy : Platform String
toy = record {
  size = count;
  concat = λ a b. a ⊹ b;
  split_newline = λ s.
      if str_eq s "R1;" then "R1" ∷ "" ∷ [] else if str_eq s "R2;" then "R2" ∷ "" ∷ [] else s ∷ [];
  encode = λ s. s;
  decode = some;
  b64encode = λ s. s;
  b64decode = some;
  sha256_hex = λ s. "d1";
  sha1_hex = λ s. blob5;
  split = λ s. s ∷ [];
  loads = toy_loads;
  dumps = λ v. some "{}";
  dumps_strict = λ b v. some "{}";
  dumps_pretty = λ b v. some "{}";
  dumps_sorted = λ v. some "{}";
  quote = λ s. s;
  format = λ v. "6";
}

-- The remote: the number of its issues, and whether the ref has moved.
abbrev pub World : Type 0
World = ℕ × Bool

abbrev pub entry : String → String → String → String → Value
entry path mode kind sha =
    object (("path", str path) ∷ ("mode", str mode) ∷ ("type", str kind) ∷ ("sha", str sha) ∷ [])

abbrev pub tree_of : Value → Value
tree_of e = object (("truncated", bool false) ∷ ("tree", array (e ∷ [])) ∷ [])

abbrev answer_get : String → String → Bool → Result Value
answer_get stored path moved =
    if str_eq path ref_path
    then ok (object (("object", object (("sha", str (if moved then head3 else head0)) ∷ [])) ∷ []))
    else if str_eq path (commit_path head0)
    then ok (object (("tree", object (("sha", str tree1) ∷ [])) ∷ []))
    else if str_eq path (commit_path head3)
    then ok (
        object (
          ("sha", str head3)
          ∷ ("parents", array (str head0 ∷ []))
          ∷ ("tree", object (("sha", str tree2) ∷ []))
          ∷ []))
    else if str_eq path (repo_path ("/git/trees/" ⊹ tree1))
    then ok (tree_of (entry "requests" "040000" "tree" tree4))
    else if str_eq path (repo_path ("/git/trees/" ⊹ tree4))
    then ok (tree_of (entry "d1.json" "100644" "blob" blob5))
    else if starts path (repo_path "/contents/requests/d1.json")
    then ok (
        object (
          ("type", str "file")
          ∷ ("encoding", str "base64")
          ∷ ("size", int 2)
          ∷ ("content", str stored)
          ∷ ("sha", str blob5)
          ∷ []))
    else err (api_error 404)

abbrev answer : String → Method → String → Bool → Result Value
answer stored get_method path moved = answer_get stored path moved
answer stored post_method path moved = ok (
    object (
      (
        "sha",
        str (
            if str_eq path blobs_path
            then blob5
            else if str_eq path trees_path
            then tree2
            else head3),
      )
      ∷ []))
answer stored patch_method path moved = ok null

abbrev after : Method → Bool → Bool
after patch_method moved = true
after _ moved = moved

-- The remote whose one record is the text `stored`.
abbrev pub remote_of : String → Transport World
remote_of stored method path body w = (answer stored method path w.1, (w.0, after method w.1))

abbrev pub remote : Transport World
remote = remote_of "R0"

abbrev pub start : World
start = (7, false)

abbrev pub snapshot0 : JournalSnapshot
snapshot0 = record {
  head_sha = head0;
  tree_sha = tree1;
  record_json = some "R0";
  record_blob_sha = some blob5;
}

abbrev pub receipt1 : PublicationReceipt
receipt1 = record { commit_sha = head3; tree_sha = tree2; replayed = false }

-- The CLI that prints the line `printed`.
abbrev pub child : String → Host String World
child printed = record {
  run_cli = λ argv w. (ok (record { returncode = exited 0; stdout = printed; stderr = "" }), w);
  open_directory = λ w. (ok "tmp", w);
  close_directory = λ directory w. (ok tt, w);
  create_private = λ path content w. (true, w);
}

-- No request opens or closes an issue.
abbrev pub SevenIssues : World → Type 0
SevenIssues w = w.0 ≡ 7

abbrev pub IsUnmoved : World → Type 0
IsUnmoved w = w.1 ≡ false

pub remote-SevenIssues :
    (method : Method) (path : String) (body : Value)
    → Confined SevenIssues Any (remote method path body)
remote-SevenIssues method path body = record {
  keeps = λ w h. h;
  raises = λ w h. Any-Raises (answer "R0" method path w.1);
}

pub remote-writes :
    (snapshot : JournalSnapshot) (id path content : String)
    → KeptByWrites toy remote SevenIssues snapshot id path content
remote-writes _ _ _ _ = record {
  blob = remote-SevenIssues post_method blobs_path null;
  tree = λ sha. remote-SevenIssues post_method trees_path null;
  commit = λ sha. remote-SevenIssues post_method commits_path null;
  ref = λ sha. remote-SevenIssues patch_method patch_path null;
}

pub remote-reads : (stored : String) → KeptBy IsUnmoved (remote_of stored) get_method
remote-reads stored path body = record {
  keeps = λ w h. h;
  raises = λ w h. Any-Raises (answer stored get_method path w.1);
}

pub child-keeps : (printed : String) → KeptByHost IsUnmoved (child printed)
child-keeps printed = record {
  runs = λ argv. record { keeps = λ w h. h; raises = λ w h. tt };
  opens = record { keeps = λ w h. h; raises = λ w h. tt };
  closes = λ directory. record { keeps = λ w h. h; raises = λ w h. tt };
  creates = λ path content w h. h;
}
