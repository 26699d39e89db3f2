-- ===== src/Journal/Load.antt =====
-- `_regular_blob_sha`, `load` and `load_at` of scripts/actions_git_journal.py.
use zach.Common.{
  ℕ, suc, Bool, false, Option, none, some, List, [], ◌∷◌, String, ◌⊹◌, ◌==◌, split_slash,
  if◌then◌else◌,
}
use zach.Python.Value.{Value, null, str}
use zach.Action.{Result, ok, Action, bind, pure, raise, lift, try, ◌>>=◌, ◌>>◌}
use zach.Action.Error.{Exc, api_error}
use zach.Platform.{Platform}
use zach.Journal.Contents.{tree_entry, checked_record}
use zach.Journal.Record.{
  JournalSnapshot, validate_sha40, validate_request_id, record_path_for_request_id, extract_ref_sha,
  extract_tree_sha,
}
use zach.Journal.Api.{get_method, Transport, repo_path, ref_path, commit_path}

abbrev pub is_missing : Exc → Option String → Bool
is_missing (api_error status) none = status == 404
is_missing _ _ = false

module _ {W : Type 0} (request : Transport W) where
  -- One round of the loop of `_regular_blob_sha` and what follows it at the entry's SHA.
  unfoldable pub at_level :
      String → ℕ → String → (String → Action W (Option String)) → Action W (Option String)
  at_level tree_sha index part next = do
    response ← request get_method (repo_path ("/git/trees/" ⊹ tree_sha)) null
    entry ← lift (tree_entry index part response)
    elim entry [ none ↦ pure none | some sha ↦ next sha ]

  -- The loop of `_regular_blob_sha` from the level `index`.
  unfoldable pub regular_blob_sha : String → ℕ → List String → Action W (Option String)
  regular_blob_sha tree_sha index [] = pure (some tree_sha)
  regular_blob_sha tree_sha index (part ∷ parts) =
      at_level tree_sha index part λ sha. regular_blob_sha sha (suc index) parts

  -- The request for the content; `none` where the record does not exist.
  unfoldable pub read_contents : String → String → Option String → Action W (Option Value)
  read_contents path head_sha expected_blob_sha =
      try
        (do
          content_resp ←
              request get_method (repo_path ("/contents/" ⊹ path ⊹ "?ref=" ⊹ head_sha)) null
          pure (some content_resp))
        (λ e. if is_missing e expected_blob_sha then pure none else raise e)

module _ {B : Type 0} (p : Platform B) where
  unfoldable pub snapshot_of :
      String → String → String → Option String → Option Value → Result JournalSnapshot
  snapshot_of request_id head_sha tree_sha expected_blob_sha none = ok (record {
    head_sha = head_sha;
    tree_sha = tree_sha;
    record_json = none;
    record_blob_sha = none;
  })
  snapshot_of request_id head_sha tree_sha expected_blob_sha (some content_resp) =
      bind (checked_record p request_id expected_blob_sha content_resp) λ checked. ok (record {
        head_sha = head_sha;
        tree_sha = tree_sha;
        record_json = some checked.0;
        record_blob_sha = some checked.1;
      })

module _ {B W : Type 0} (p : Platform B) (request : Transport W) where
  unfoldable pub load_at : String → String → Action W JournalSnapshot
  load_at request_id head_sha = do
    lift (validate_request_id request_id)
    lift (validate_sha40 (str head_sha))
    path ← lift (record_path_for_request_id p request_id)
    commit_resp ← request get_method (commit_path head_sha) null
    tree_sha ← lift (validate_sha40 (extract_tree_sha commit_resp))
    expected_blob_sha ← regular_blob_sha request tree_sha 0 (split_slash path)
    content_resp ← read_contents request path head_sha expected_blob_sha
    lift (snapshot_of p request_id head_sha tree_sha expected_blob_sha content_resp)

  unfoldable pub load : String → Action W JournalSnapshot
  load request_id = do
    lift (validate_request_id request_id)
    lift (record_path_for_request_id p request_id)
    ref_resp ← request get_method ref_path null
    head_sha ← lift (validate_sha40 (extract_ref_sha ref_resp))
    load_at request_id head_sha
