-- ===== src/Journal/Effects.antt =====
-- Which requests the journal sends, and which of their effects depend on an answer.
use zach.Common.{ℕ, suc, ◌≡◌, true, false, Option, none, List, [], ◌∷◌, String, ◌⊹◌, arith}
use zach.Python.Value.{Value, bool, str, list, dict, nil, cons, end, field}
use zach.Action.{Result, ok, err, raise, lift}
use zach.Action.Error.{Exc}
use zach.Action.Checks.{after_bind, after_require}
use zach.Action.Confined.{
  Confined, Raises, Confined-pure, Confined-raise, Confined-bind, Confined-bind-lift, Confined-try,
  Confined-if, Confined-elim, Confined-lift, confined_rules,
}
use zach.Platform.{Platform}
use zach.Journal.Record.{JournalSnapshot, record_path_for_request_id, parse_and_validate_record}
use zach.Journal.Api.{
  Method, get_method, post_method, patch_method, Transport, patch_path, blobs_path, trees_path,
  commits_path,
}
use zach.Journal.Contents.{tree_entry}
use zach.Journal.Load.{at_level, regular_blob_sha, read_contents, load_at, load}
use zach.Journal.Publish.{
  NewRecord, TransitionValidator, is_accepted, is_replay, record_text, proposed_record,
  create_candidate, move_ref, readback, write_record, publish,
}

-- Any exception.
abbrev pub Any : Exc → Type 0
Any e = Unit

-- The property of the remote state survives each request of the method, whatever its path and body.
abbrev pub KeptBy : {W : Type 0} → (W → Type 0) → Transport W → Method → Type 0
KeptBy {W} P request method =
    (path : String) (body : Value) → Confined P Any (request method path body)

pub Any-Raises : {A : Type 0} (r : Result A) → Raises Any r
Any-Raises (ok a) = tt
Any-Raises (err e) = tt

pub Any-lift : {W A : Type 0} {P : W → Type 0} (r : Result A) → Confined P Any (lift r)
Any-lift r = Confined-lift r (Any-Raises r)

pub Any-raise : {W A : Type 0} {P : W → Type 0} (e : Exc) → Confined P Any (raise {W = W} {A = A} e)
Any-raise e = Confined-raise tt

pub ruleset any_rules =
    (Any-lift, Any-raise, Confined-pure, Confined-if, Confined-try, Confined-bind)

module _ {B W : Type 0} (p : Platform B) (request : Transport W) (P : W → Type 0)
    (gets : KeptBy P request get_method) where
  regular_blob_sha-Confined :
      (sha : String) (index : ℕ) (parts : List String)
      → Confined P Any (regular_blob_sha request sha index parts)
  unfolding regular_blob_sha at_level
  regular_blob_sha-Confined sha index [] = Confined-pure _
  regular_blob_sha-Confined sha index (part ∷ parts) = Confined-bind _ _ (gets _ _) λ response.
      Confined-bind-lift (tree_entry index part response) _ (Any-Raises _) λ entry _.
        Confined-elim entry (Confined-pure none)
          λ sha'. regular_blob_sha-Confined sha' (suc index) parts

  read_contents-Confined :
      (path head_sha : String) (expected : Option String)
      → Confined P Any (read_contents request path head_sha expected)
  unfolding read_contents
  read_contents-Confined path head_sha expected = search (any_rules, gets)

  pub load_at-Confined :
      (request_id head_sha : String) → Confined P Any (load_at p request request_id head_sha)
  unfolding load_at
  load_at-Confined request_id head_sha =
      search (any_rules, gets, regular_blob_sha-Confined, read_contents-Confined) depth 20

  pub load-Confined : (request_id : String) → Confined P Any (load p request request_id)
  unfolding load
  load-Confined request_id = search (any_rules, gets, load_at-Confined) depth 12

-- What a publication of the text may ask for besides reads, with every body written out: the blob of the
-- text, a tree on the snapshot's tree in which the one entry at the path is such a file, a commit with the
-- snapshot's head as its only parent, and an update of the fixed ref with `force` unset.
pub record KeptByWrites {B W : Type 0} (p : Platform B) (request : Transport W) (P : W → Type 0)
    (snapshot : JournalSnapshot) (request_id path content : String) : Type 0 where
  pub blob : Confined P Any (
      request post_method blobs_path (
        dict (
          field "content"
            (str (p.b64encode (p.encode content)))
            (field "encoding" (str "base64") end))))
  pub tree :
      (blob_sha : String)
      → Confined P Any (
          request post_method trees_path (
            dict (
              field "base_tree" (str snapshot.tree_sha) (
                field "tree"
                  (list (
                    cons
                      (dict (
                        field "path" (str path) (
                          field "mode"
                            (str "100644")
                            (field "type" (str "blob") (field "sha" (str blob_sha) end)))))
                      nil))
                  end))))
  pub commit :
      (tree_sha : String)
      → Confined P Any (
          request post_method commits_path (
            dict (
              field "message" (str ("chore(actions): record " ⊹ request_id)) (
                field "tree"
                  (str tree_sha)
                  (field "parents" (list (cons (str snapshot.head_sha) nil)) end)))))
  pub ref :
      (sha : String)
      → Confined P Any (
          request patch_method patch_path
            (dict (field "sha" (str sha) (field "force" (bool false) end))))

module _ {B W : Type 0} (p : Platform B) (request : Transport W) (P : W → Type 0)
    (gets : KeptBy P request get_method) (snapshot : JournalSnapshot)
    (request_id path content : String)
    (kept : KeptByWrites p request P snapshot request_id path content) where
  create_candidate-Confined :
      Confined P Any (create_candidate p request snapshot request_id path content)
  unfolding create_candidate
  create_candidate-Confined = Confined-bind _ _ kept.blob λ blob_resp.
      Confined-bind _ _ (Any-lift _) λ blob_sha. Confined-bind _ _ (Any-lift _) λ _.
        Confined-bind _ _ (kept.tree blob_sha) λ tree_resp.
          Confined-bind _ _ (Any-lift _) λ tree_sha.
            Confined-bind _ _ (kept.commit tree_sha)
              λ commit_resp. Confined-bind _ _ (Any-lift _) λ candidate_sha. Confined-pure _

  move_ref-Confined : (sha : String) → Confined P Any (move_ref request sha)
  unfolding move_ref
  move_ref-Confined sha = search (any_rules, kept.ref)

  readback-Confined : (sha head tree : String) → Confined P Any (readback request sha head tree)
  unfolding readback
  readback-Confined sha head tree = search (any_rules, gets) depth 8

  pub write_record-Confined :
      Confined P Any (write_record p request snapshot request_id path content)
  unfolding write_record
  write_record-Confined =
      search (any_rules, create_candidate-Confined, move_ref-Confined, readback-Confined) depth 8

module _ {B : Type 0} (p : Platform B) where
  -- The proposed text is that of the caller, and a valid record of the request, and the validator accepts it.
  pub proposed_record_sound :
      (validate : TransitionValidator) (snapshot : JournalSnapshot) (request_id : String)
      (content : NewRecord B) {s : String}
      → proposed_record p validate snapshot request_id content ≡ ok s
      → (record_text p content ≡ ok s)
        × (is_accepted (validate snapshot.record_json s) ≡ true)
        × ((v : Value) × (parse_and_validate_record p s request_id ≡ ok v))
  unfolding proposed_record
  proposed_record_sound validate snapshot request_id content h = after_bind _ _ h λ _ _ h₁.
      after_bind _ _ h₁ λ _ _ h₂. after_bind _ _ h₂ λ _ _ h₃. after_bind _ _ h₃ λ _ _ h₄.
        after_bind _ _ h₄ λ text given h₅. after_bind _ _ h₅ λ v valid h₆.
          after_require _ _ _ h₆ λ accepted same. (ground arith, ground arith, (v, ground arith))

module _ {B W : Type 0} (p : Platform B) (request : Transport W) (P : W → Type 0)
    (gets : KeptBy P request get_method) where
  -- A publication keeps every property of the remote state that survives reads and the four writes of the
  -- caller's text: the blob of exactly this text, a tree with it at the path of the request, a commit on the
  -- snapshot's head, and an update of the fixed ref that is not forced. It sends nothing else.
  pub publish-Confined :
      (validate : TransitionValidator) (snapshot : JournalSnapshot) (request_id : String)
      (content : NewRecord B)
      → ((s path : String)
          → record_text p content ≡ ok s
          → record_path_for_request_id p request_id ≡ ok path
          → KeptByWrites p request P snapshot request_id path s)
      → Confined P Any (publish p request validate snapshot request_id content)
  unfolding publish
  publish-Confined validate snapshot request_id content writes =
      Confined-bind-lift _ _ (Any-Raises _) λ s proposed.
        Confined-bind-lift _ _ (Any-Raises _) λ path at_path.
          let given = (proposed_record_sound p validate snapshot request_id content proposed).0 in
          let written : Confined P Any (write_record p request snapshot request_id path s) =
            write_record-Confined p request P gets snapshot request_id path s
              (writes s path given at_path) in
          Confined-bind _ _ (load-Confined p request P gets request_id) λ fresh.
            Confined-bind _ _ (Any-lift _)
              λ _. Confined-if (is_replay snapshot s) _ _ (λ _. Confined-pure _) λ _. written
