-- ===== src/Journal/Api.antt =====
-- The transport of scripts/actions_git_journal.py and the paths that the journal requests.
use zach.Common.{String, ◌⊹◌}
use zach.Python.Value.{Value}
use zach.Action.{Action}
use zach.Journal.Record.{fixed_repository, fixed_ref}

-- The HTTP methods that the scripts send.
pub data Method : Type 0 where
  get_method post_method patch_method : Method

-- The injected `request(method, path, body)`: it answers with decoded JSON or raises.
abbrev pub Transport : Type 0 → Type 0
Transport W = Method → String → Value → Action W Value

abbrev pub repo_path : String → String
repo_path rest = "/repos/" ⊹ fixed_repository ⊹ rest

abbrev pub ref_path : String
ref_path = repo_path ("/git/ref/" ⊹ fixed_ref)

abbrev pub patch_path : String
patch_path = repo_path ("/git/refs/" ⊹ fixed_ref)

abbrev pub commit_path : String → String
commit_path sha = repo_path ("/git/commits/" ⊹ sha)

abbrev pub blobs_path : String
blobs_path = repo_path "/git/blobs"

abbrev pub trees_path : String
trees_path = repo_path "/git/trees"

abbrev pub commits_path : String
commits_path = repo_path "/git/commits"
