-- ===== src/Dispatch/Policy.antt =====
-- The policy of scripts/actions_recipe_dispatch.py and its errors.
use zach.Common.{
  ℕ, zero, suc, ◌*◌, Bool, true, false, not, ◌&&◌, ◌||◌, List, [], ◌∷◌, String, count, ◌==◌, str_eq,
  all_codes, is_lower_hex, is_alnum, is_word, split_slash, starts, codes,
}
use zach.Python.Value.{Value, null}
use zach.Action.{Result, Action, require, raise, try}
use zach.Action.Error.{Exc, RecipeCode, recipe_dispatch_error}
use zach.CiInspect.Policy.{is_alias, is_repository, is_positive}
use zach.Journal.Api.{Transport, get_method}

abbrev pub max_result_bytes : ℕ
max_result_bytes = 16 * 1024

abbrev pub max_reconciliation_pages : ℕ
max_reconciliation_pages = 10

abbrev pub reconciliation_per_page : ℕ
reconciliation_per_page = 100

-- `DISPATCH_CLOCK_SKEW` in seconds
abbrev pub dispatch_clock_skew : ℕ
dispatch_clock_skew = 300

abbrev pub supported_recipe : String
supported_recipe = "sandbox.delivery"

-- An error that says that nothing was done, and one that leaves the effect unknown.
abbrev pub refused : RecipeCode → Exc
refused code = recipe_dispatch_error code false false

abbrev pub ambiguous : RecipeCode → Exc
ambiguous code = recipe_dispatch_error code false true

pub record RecipeDispatchPolicy : Type 0 where
  pub recipe : String
  pub repository_alias : String
  pub repository_full_name : String
  pub repository_id : ℕ
  pub workflow_id : ℕ
  pub workflow_path : String
  pub ref : String
  pub actor_id : ℕ

unfoldable pub is_sha256 : String → Bool
is_sha256 s = count s == 64 && all_codes is_lower_hex s

abbrev pub file_char : ℕ → Bool
file_char c = is_alnum c || c == b'_' || c == b'.' || c == b'-'

abbrev pub drop_codes : ℕ → List ℕ → List ℕ
drop_codes zero cs = cs
drop_codes (suc n) [] = []
drop_codes (suc n) (c ∷ cs) = drop_codes n cs

-- What a `WORKFLOW_PATH_RE` name may be, from its second character on, with the number of characters
-- so far: up to 99 of them, then `.yml` or `.yaml`.
abbrev pub is_suffix : List ℕ → Bool
is_suffix (d ∷ y ∷ m ∷ l ∷ []) = d == b'.' && y == b'y' && m == b'm' && l == b'l'
is_suffix (d ∷ y ∷ a ∷ m ∷ l ∷ []) = d == b'.' && y == b'y' && a == b'a' && m == b'm' && l == b'l'
is_suffix _ = false

unfoldable pub is_file_rest : ℕ → List ℕ → Bool
is_file_rest n [] = false
is_file_rest zero (c ∷ cs) = is_suffix (c ∷ cs)
is_file_rest (suc n) (c ∷ cs) =
    let rest = is_file_rest n cs in is_suffix (c ∷ cs) || (file_char c && rest)

abbrev pub is_file_name : List ℕ → Bool
is_file_name [] = false
is_file_name (c ∷ cs) = is_alnum c && is_file_rest 99 cs

unfoldable pub is_workflow_path : String → Bool
is_workflow_path path =
    starts path ".github/workflows/" && is_file_name (drop_codes 18 (codes path))

unfoldable pub is_ref : String → Bool
is_ref = is_word is_alnum (λ c. file_char c || c == b'/') 128

-- `".." in parts`
abbrev pub has_dots : List String → Bool
has_dots [] = false
has_dots (s ∷ parts) = str_eq s ".." || has_dots parts

unfoldable pub validate_policy : RecipeDispatchPolicy → Result (Unit {0})
validate_policy policy =
    require
      (str_eq policy.recipe supported_recipe
        && is_alias policy.repository_alias
        && is_repository policy.repository_full_name
        && is_positive policy.repository_id
        && is_positive policy.workflow_id
        && is_workflow_path policy.workflow_path
        && is_ref policy.ref
        && not (has_dots (split_slash policy.ref))
        && is_positive policy.actor_id)
      (refused RecipeCode.invalid_recipe_policy)

module _ {W : Type 0} (api_transport : Transport W) where
  -- `_get`: a read whose failure is safe to repeat.
  unfoldable pub get_json : String → Action W Value
  get_json path =
      try (api_transport get_method path null)
        (λ _. raise (recipe_dispatch_error RecipeCode.recipe_preflight_failed true false))
