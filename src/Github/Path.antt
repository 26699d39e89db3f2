-- ===== src/Github/Path.antt =====
-- What scripts/actions_github_api.py checks before a request is sent: the credentials of a client, the
-- method and the path.
use zach.Common.{
  ℕ, zero, suc, Bool, true, false, ◌&&◌, ◌||◌, not, Option, none, some, List, [], ◌∷◌, String, ◌⊹◌,
  count, ltb, leb, ◌==◌, str_eq, all_codes, split_slash, starts, has_part, split_at, drop_chars,
  if◌then◌else◌,
}
use zach.Action.{Result, ok, err, require, or_raise}
use zach.Action.Error.{Exc, api_error, other_exception}
use zach.Action.Checks.{◌>>=◌, ◌>>◌}
use zach.Journal.Record.{is_sha40}

abbrev pub fixed_base_url : String
fixed_base_url = "https://api.github.com"

abbrev pub allowed_methods : List String
allowed_methods = "GET" ∷ "POST" ∷ "PATCH" ∷ "PUT" ∷ "DELETE" ∷ []

abbrev pub trusted_repositories : List String
trusted_repositories =
    "shockerqt/workspace-governance" ∷ "shockerqt/zach" ∷ "shockerqt/ui-design-sandbox"
    ∷ "shockerqt/infrastructure" ∷ []

abbrev pub max_path_bytes : ℕ
max_path_bytes = 8192

-- `RequestValidationError`, an `ApiError` of this status
abbrev pub rejected : Exc
rejected = api_error 400

-- What `urlsplit` returns: whether a user name or a port is there, and is neither empty nor 0; the port is
-- none where its property raises a `ValueError`.
pub record UrlParts : Type 0 where
  pub scheme : String
  pub netloc : String
  pub path : String
  pub has_username : Bool
  pub has_port : Option Bool

-- `urllib.parse`; `urlsplit` is none where it raises a `ValueError`.
pub record UrlLibrary : Type 0 where
  pub unquote : String → String
  pub urlsplit : String → Option UrlParts

-- `text in texts`
unfoldable pub one_of : String → List String → Bool
one_of s [] = false
one_of s (t ∷ ts) = str_eq s t || one_of s ts

unfoldable pub are_trusted : List String → Bool
are_trusted [] = true
are_trusted (r ∷ rs) = one_of r trusted_repositories && are_trusted rs

-- ASCII without controls and white space
abbrev pub is_token_code : ℕ → Bool
is_token_code c = ltb 32 c && ltb c 127

pub record GithubApi : Type 0 where
  pub token : String
  pub allowed_repositories : List String

abbrev pub is_nonempty : List String → Bool
is_nonempty [] = false
is_nonempty (r ∷ rs) = true

-- `GithubApi.__init__` on a text and on a set of texts; both exceptions are `ValueError`.
unfoldable pub construct : String → List String → Result GithubApi
construct token allowed = do
  require (ltb 0 (count token) && all_codes is_token_code token) other_exception
  require (is_nonempty allowed && are_trusted allowed) other_exception
  ok (record { token = token; allowed_repositories = allowed })

-- No backslash, `#`, `@` or control character.
abbrev pub is_path_code : ℕ → Bool
is_path_code c =
    not (c == b'\\') && not (c == b'#') && not (c == b'@') && leb 32 c && not (c == 127)

-- The same without `?`.
abbrev pub is_segment_code : ℕ → Bool
is_segment_code c = is_path_code c && not (c == b'?')

-- No part of the path is `.` or `..`.
unfoldable pub has_no_dots : List String → Bool
has_no_dots [] = true
has_no_dots (s ∷ parts) = not (str_eq s ".") && not (str_eq s "..") && has_no_dots parts

-- `relative_path.partition("?")[0]`
unfoldable pub path_part : String → String
path_part s = elim (split_at "?" s) [ none ↦ s | some parts ↦ parts.0 ]

abbrev pub is_ascii_code : ℕ → Bool
is_ascii_code c = ltb c 128

-- The path is that of the repository or below it.
unfoldable pub is_within : String → String → Bool
is_within path repository =
    str_eq path ("/repos/" ⊹ repository) || starts path ("/repos/" ⊹ repository ⊹ "/")

unfoldable pub is_within_any : String → List String → Bool
is_within_any path [] = false
is_within_any path (r ∷ rs) = is_within path r || is_within_any path rs

-- `[0-9a-f]{40}\.\.\.[0-9a-f]{40}`
abbrev pub is_comparison : Option (String × String) → Bool
is_comparison none = false
is_comparison (some sides) = is_sha40 sides.0 && is_sha40 sides.1

abbrev pub compare_prefix : String
compare_prefix = "/repos/shockerqt/zach/compare/"

-- The pattern of the public observations.
unfoldable pub is_public_observation : String → Bool
is_public_observation path =
    str_eq path "/repos/shockerqt/zach/git/ref/heads/main"
    || starts path compare_prefix
      && is_comparison (split_at "..." (drop_chars (count compare_prefix) path))

-- The last condition of `_validate_path`, which asks for the port only if all else is as it should be.
unfoldable pub is_altered : UrlParts → String → Result Bool
is_altered u path =
    if str_eq u.scheme "https"
      && str_eq u.netloc "api.github.com"
      && str_eq u.path path
      && not u.has_username
    then or_raise u.has_port other_exception
    else ok true

module _ (urls : UrlLibrary) where
  -- The loop over the decodings of a path; the count is what is left of `range(9)`.
  unfoldable pub check_decodings : ℕ → String → Result (Unit {0})
  check_decodings zero curr = err rejected
  check_decodings (suc left) curr =
      let rest = check_decodings left (urls.unquote curr) in
      require (has_no_dots (split_slash curr)) rejected >>= λ _.
      require (all_codes is_segment_code curr) rejected >>= λ _.
      (if str_eq (urls.unquote curr) curr then ok tt else rest)

  -- `_validate_path` on a text
  unfoldable pub validate_path : List String → String → Result String
  validate_path allowed relative_path = do
    require (leb (count relative_path) max_path_bytes && all_codes is_ascii_code relative_path)
        rejected
    require (all_codes is_path_code relative_path) rejected
    require (not (starts relative_path "//") && starts relative_path "/repos/") rejected
    require (all_codes is_path_code (urls.unquote relative_path)) rejected
    require (not (has_part "//" (path_part relative_path))) rejected
    check_decodings 9 (path_part relative_path)
    require (is_within_any (path_part relative_path) allowed) (api_error 403)
    u ← or_raise (urls.urlsplit (fixed_base_url ⊹ relative_path)) other_exception
    altered ← is_altered u (path_part relative_path)
    require (not altered) rejected
    ok (fixed_base_url ⊹ relative_path)

  -- The start of `_request_json`: the URL that is asked for.
  unfoldable pub request_url : GithubApi → String → String → Bool → Bool → Result String
  request_url api method relative_path has_body public_zach = do
    require (one_of method allowed_methods) rejected
    if public_zach
        then (require (str_eq method "GET" && not has_body && is_public_observation relative_path)
              rejected
            >> ok (fixed_base_url ⊹ relative_path))
        else validate_path api.allowed_repositories relative_path
