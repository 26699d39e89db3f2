-- ===== src/Journal/Publish.antt =====
-- `publish` of scripts/actions_git_journal.py.
use zach.Common.{
  Bool, true, false, ◌&&◌, Option, none, some, [], ◌∷◌, String, ◌⊹◌, str_eq, if◌then◌else◌,
}
use zach.Python.Value.{
  Value, null, bool, str, list, dict, nil, cons, get, has_key, lookup, is_dict, end, field, eq_str,
  fields_of,
}
use zach.Action.{Result, ok, Action, bind, require, or_raise, pure, raise, lift, try, ◌>>=◌, ◌>>◌}
use zach.Action.Error.{journal_validation_error, stale_snapshot_conflict, ambiguous_publication}
use zach.Platform.{Platform, git_blob_sha}
use zach.Journal.Record.{
  JournalSnapshot, PublicationReceipt, validate_sha40, record_path_for_request_id,
  parse_and_validate_record, extract_ref_sha, extract_tree_sha,
}
use zach.Journal.Api.{
  get_method, post_method, patch_method, Transport, ref_path, patch_path, commit_path, blobs_path,
  trees_path, commits_path,
}
use zach.Journal.Load.{load}

abbrev pub opt_str_eq : Option String → Option String → Bool
opt_str_eq none none = true
opt_str_eq (some s) (some t) = str_eq s t
opt_str_eq _ _ = false

-- `==` of the dataclass
abbrev pub snapshot_eq : JournalSnapshot → JournalSnapshot → Bool
snapshot_eq a b =
    str_eq a.head_sha b.head_sha
    && str_eq a.tree_sha b.tree_sha
    && opt_str_eq a.record_json b.record_json
    && opt_str_eq a.record_blob_sha b.record_blob_sha

-- `res is None or res is True`
abbrev pub is_accepted : Value → Bool
is_accepted null = true
is_accepted (bool b) = b
is_accepted _ = false

-- `p["sha"] if isinstance(p, dict) else p`; `none` is a `KeyError`
unfoldable pub parent_sha : Value → Option Value
parent_sha (dict fs) = if has_key "sha" fs then some (lookup "sha" fs) else none
parent_sha v = some v

-- `parents == [head_sha]` for the raw value, also a dictionary, whose keys Python iterates; an
-- exception of the readback counts as a mismatch
unfoldable pub is_single_parent : Value → String → Bool
is_single_parent (list (cons v nil)) head_sha = elim (parent_sha v) [
  | none ↦ false
  | some w ↦ eq_str w head_sha
]
is_single_parent (dict (field k v end)) head_sha = str_eq k head_sha
is_single_parent _ head_sha = false

-- The four tests of the readback of `publish`.
unfoldable pub confirms : String → String → String → Value → Value → Bool
confirms candidate_sha head_sha derived_tree_sha readback_ref readback_commit =
    eq_str (extract_ref_sha readback_ref) candidate_sha
    && is_dict readback_commit
    && eq_str (get "sha" readback_commit) candidate_sha
    && is_single_parent (get "parents" readback_commit) head_sha
    && eq_str (extract_tree_sha readback_commit) derived_tree_sha

-- The argument `new_record_json: str | bytes`.
pub data NewRecord (B : Type 0) : Type 0 where
  text : String → NewRecord B
  bytes : B → NewRecord B

abbrev pub TransitionValidator : Type 0
TransitionValidator = Option String → String → Value

unfoldable pub optional_sha40 : Option String → Result (Unit {0})
optional_sha40 none = ok tt
optional_sha40 (some sha) = bind (validate_sha40 (str sha)) λ _. ok tt

module _ {B : Type 0} (p : Platform B) where
  unfoldable pub record_text : NewRecord B → Result String
  record_text (text s) = ok s
  record_text (bytes b) = or_raise (p.decode b) journal_validation_error

  -- The checks of `publish` before its first request: the text to be written.
  unfoldable pub proposed_record :
      TransitionValidator → JournalSnapshot → String → NewRecord B → Result String
  proposed_record validate_transition snapshot request_id new_record_json =
      bind (validate_sha40 (str snapshot.head_sha)) λ _.
        bind (validate_sha40 (str snapshot.tree_sha)) λ _.
          bind (optional_sha40 snapshot.record_blob_sha) λ _.
            bind (record_path_for_request_id p request_id) λ _.
              bind (record_text new_record_json) λ new_record_str.
                bind (parse_and_validate_record p new_record_str request_id) λ _.
                  bind
                    (require (is_accepted (validate_transition snapshot.record_json new_record_str))
                      journal_validation_error)
                    λ _. ok new_record_str

-- `raise` if the fresh snapshot is not the one that the caller holds.
unfoldable pub same_snapshot : JournalSnapshot → JournalSnapshot → Result (Unit {0})
same_snapshot fresh snapshot =
    bind (require (str_eq fresh.head_sha snapshot.head_sha) stale_snapshot_conflict)
      λ _. require (snapshot_eq fresh snapshot) journal_validation_error

abbrev pub is_replay : JournalSnapshot → String → Bool
is_replay snapshot new_record_str = opt_str_eq snapshot.record_json (some new_record_str)

abbrev pub blob_body : String → Value
blob_body content = dict (fields_of (("content", str content) ∷ ("encoding", str "base64") ∷ []))

abbrev pub tree_body : String → String → String → Value
tree_body base_tree path blob_sha = dict (
    fields_of (
      ("base_tree", str base_tree)
      ∷ (
        "tree",
        list (
            cons
              (dict (
                fields_of (
                  ("path", str path)
                  ∷ ("mode", str "100644")
                  ∷ ("type", str "blob")
                  ∷ ("sha", str blob_sha)
                  ∷ [])))
              nil),
      )
      ∷ []))

abbrev pub commit_body : String → String → String → Value
commit_body request_id tree parent = dict (
    fields_of (
      ("message", str ("chore(actions): record " ⊹ request_id))
      ∷ ("tree", str tree)
      ∷ ("parents", list (cons (str parent) nil))
      ∷ []))

abbrev pub patch_body : String → Value
patch_body sha = dict (fields_of (("sha", str sha) ∷ ("force", bool false) ∷ []))

module _ {W : Type 0} (request : Transport W) where
  -- Step 4: the update of the ref, whose answer is not looked at.
  unfoldable pub move_ref : String → Action W (Unit {0})
  move_ref candidate_sha =
      try (do request patch_method patch_path (patch_body candidate_sha); pure tt) (λ _. pure tt)

  -- Step 5: whether the two readback requests prove the candidate.
  unfoldable pub readback : String → String → String → Action W Bool
  readback candidate_sha head_sha derived_tree_sha =
      try
        (do
          readback_ref ← request get_method ref_path null
          readback_commit ← request get_method (commit_path candidate_sha) null
          pure (confirms candidate_sha head_sha derived_tree_sha readback_ref readback_commit))
        (λ _. pure false)

module _ {B W : Type 0} (p : Platform B) (request : Transport W) where
  -- Steps 1 to 3 of `publish`: the candidate commit and its tree.
  unfoldable pub create_candidate :
      JournalSnapshot → String → String → String → Action W (String × String)
  create_candidate snapshot request_id path new_record_str = do
    blob_resp ← request post_method blobs_path (blob_body (p.b64encode (p.encode new_record_str)))
    blob_sha ← lift (validate_sha40 (get "sha" blob_resp))
    lift (
        require (str_eq blob_sha (git_blob_sha p (p.encode new_record_str)))
          journal_validation_error)
    tree_resp ← request post_method trees_path (tree_body snapshot.tree_sha path blob_sha)
    derived_tree_sha ← lift (validate_sha40 (get "sha" tree_resp))
    commit_resp ←
        request post_method commits_path (commit_body request_id derived_tree_sha snapshot.head_sha)
    candidate_sha ← lift (validate_sha40 (get "sha" commit_resp))
    pure (candidate_sha, derived_tree_sha)

  -- Steps 1 to 5.
  unfoldable pub write_record :
      JournalSnapshot → String → String → String → Action W PublicationReceipt
  write_record snapshot request_id path new_record_str = do
    created ← create_candidate snapshot request_id path new_record_str
    move_ref request created.0
    proved ← readback request created.0 snapshot.head_sha created.1
    if proved
        then pure (record { commit_sha = created.0; tree_sha = created.1; replayed = false })
        else raise (ambiguous_publication created.0 snapshot.head_sha created.1)

  unfoldable pub publish :
      TransitionValidator → JournalSnapshot → String → NewRecord B → Action W PublicationReceipt
  publish validate_transition snapshot request_id new_record_json = do
    new_record_str ←
        lift (proposed_record p validate_transition snapshot request_id new_record_json)
    path ← lift (record_path_for_request_id p request_id)
    fresh ← load p request request_id
    lift (same_snapshot fresh snapshot)
    if is_replay snapshot new_record_str
        then pure (record {
          commit_sha = snapshot.head_sha;
          tree_sha = snapshot.tree_sha;
          replayed = true;
        })
        else write_record snapshot request_id path new_record_str
