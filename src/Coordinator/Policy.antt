-- ===== src/Coordinator/Policy.antt =====
-- The validators of scripts/actions_journal_coordinator.py: the issue policy, execution ids and
-- terminal values.
use zach.Common.{
  ℕ, ◌^◌, ◌-◌, ◌*◌, Bool, true, false, not, ◌&&◌, ◌||◌, List, [], ◌∷◌, String, ◌⊹◌, count, ltb, leb,
  ◌==◌, length, contains, all_codes, is_ascii, is_alnum, starts, lower_starts, lower_has,
  count_code, show,
}
use zach.Action.{Result, ok, require}
use zach.Action.Error.{CoordinatorCode, coordinator_error}
use zach.Action.Checks.{◌>>◌}

abbrev pub max_event_bytes : ℕ
max_event_bytes = 256 * 1024

abbrev pub max_policy_actors : ℕ
max_policy_actors = 256

abbrev pub max_u64 : ℕ
max_u64 = 2 ^ 64 - 1

-- The first six of `TOKEN_PREFIXES`, and all of them.
abbrev pub credential_prefixes : List String
credential_prefixes = "ghp_" ∷ "gho_" ∷ "ghu_" ∷ "ghs_" ∷ "ghr_" ∷ "github_pat_" ∷ []

abbrev pub token_prefixes : List String
token_prefixes =
    "ghp_" ∷ "gho_" ∷ "ghu_" ∷ "ghs_" ∷ "ghr_" ∷ "github_pat_" ∷ "bearer" ∷ "token" ∷ []

pub record TrustedIssuePolicy : Type 0 where
  pub repository_id : ℕ
  pub repository_full_name : String
  pub allowed_actor_ids : List ℕ

abbrev pub any_of : (String → Bool) → List String → Bool
any_of test [] = false
any_of test (s ∷ ss) = test s || any_of test ss

abbrev pub all_u64 : List ℕ → Bool
all_u64 [] = true
all_u64 (n ∷ ns) = (ltb 0 n && leb n max_u64) && all_u64 ns

-- `len(set(actors)) == len(actors)`
abbrev pub are_distinct : List ℕ → Bool
are_distinct [] = true
are_distinct (n ∷ ns) = not (contains n ns) && are_distinct ns

-- `",".join(str(actor) for actor in actors)`
pub joined_ids : List ℕ → String
joined_ids [] = ""
joined_ids (n ∷ []) = show n
joined_ids (n ∷ m ∷ ns) = show n ⊹ "," ⊹ joined_ids (m ∷ ns)

unfoldable pub is_repository_name : String → Bool
is_repository_name repo =
    is_ascii repo
    && (leb 3 (count repo) && leb (count repo) 255)
    && count_code b'/' repo == 1
    && all_codes (λ c. leb 0x21 c && leb c 0x7E) repo
    && not (starts repo "--")

unfoldable pub validate_policy : TrustedIssuePolicy → Result String
validate_policy policy = do
  require (ltb 0 policy.repository_id && leb policy.repository_id max_u64)
      (coordinator_error CoordinatorCode.invalid_policy)
  require (is_repository_name policy.repository_full_name)
      (coordinator_error CoordinatorCode.invalid_policy)
  let actors = policy.allowed_actor_ids
  require
      ((leb 1 (length actors) && leb (length actors) max_policy_actors)
        && all_u64 actors
        && are_distinct actors)
      (coordinator_error CoordinatorCode.invalid_policy)
  ok (joined_ids actors)

unfoldable pub is_execution_id : String → Bool
is_execution_id s =
    leb 1 (count s)
    && leb (count s) 128
    && all_codes (λ c. is_alnum c || c == b'_' || c == b'.' || c == b':' || c == b'-') s

unfoldable pub validate_execution_id : String → Result (Unit {0})
validate_execution_id execution_id = do
  require (is_execution_id execution_id) (coordinator_error CoordinatorCode.invalid_execution_id)
  require (not (any_of (lower_starts execution_id) token_prefixes))
      (coordinator_error CoordinatorCode.invalid_execution_id)

unfoldable pub is_terminal_value : String → ℕ → Bool
is_terminal_value value maximum =
    (leb 1 (count value) && leb (count value) maximum)
    && is_ascii value
    && all_codes (λ c. leb 0x20 c && leb c 0x7E) value
    && not (starts value "--")
    && not (any_of (lower_has value) credential_prefixes)
    && not (lower_starts value "bearer ")

unfoldable pub validate_terminal_value : String → ℕ → CoordinatorCode → Result (Unit {0})
validate_terminal_value value maximum code =
    require (is_terminal_value value maximum) (coordinator_error code)
