-- ===== src/CiInspect/Pages.antt =====
-- The pagination of scripts/actions_ci_inspect.py: `_page_items`, and the loop that `_list_runs` and
-- `_list_jobs` share, over the summary of a row, its id and the limit on the total.
use zach.Common.{
  ℕ, zero, suc, ◌+◌, Bool, false, not, ◌||◌, Option, none, some, List, [], ◌∷◌, ◌++◌, String, ltb,
  leb, ◌==◌, length, contains, if◌then◌else◌,
}
use zach.Python.Value.{Value, bool, int, list, Fields, dict, lookup, has_key, elements}
use zach.Action.{Result, ok, err, Action, bind, require, pure, raise, lift, ◌>>=◌, ◌>>◌}
use zach.Action.Error.{CiCode}
use zach.Journal.Api.{Transport}
use zach.CiInspect.Policy.{per_page, max_pages, fatal, retryable, get_json}

-- The checks of a completeness flag, if the answer has it.
abbrev pub flag_is_unset : Value → Result (Unit {0})
flag_is_unset (bool b) = require (not b) (retryable CiCode.incomplete_pagination)
flag_is_unset _ = err (fatal CiCode.malformed_pagination)

unfoldable pub check_flag : String → Fields → Result (Unit {0})
check_flag key response =
    if has_key key response then flag_is_unset (lookup key response) else ok tt

abbrev pub differs_from : Option ℕ → ℕ → Bool
differs_from none total = false
differs_from (some expected) total = not (total == expected)

abbrev pub total_and_items : Value → Value → Result (ℕ × List Value)
total_and_items (int total) (list items) =
    if leb (length (elements items)) per_page
    then ok (total, elements items)
    else err (fatal CiCode.malformed_pagination)
total_and_items _ _ = err (fatal CiCode.malformed_pagination)

unfoldable pub page_items : Value → String → Option ℕ → Result (ℕ × List Value)
page_items (dict response) collection_key expected_total =
    bind (check_flag "truncated" response) λ _. bind (check_flag "incomplete_results" response) λ _.
      bind (total_and_items (lookup "total_count" response) (lookup collection_key response))
        λ page.
          bind
            (require (not (differs_from expected_total page.0))
              (retryable CiCode.pagination_changed))
            λ _. ok page
page_items _ collection_key expected_total = err (fatal CiCode.malformed_pagination)

abbrev pub is_first_and : Option ℕ → Bool → Bool
is_first_and none b = b
is_first_and (some n) b = false

module _ {S : Type 0} (summarise : Value → Result S) (id_of : S → ℕ) where
  -- The loop over the rows of one page, with the ids and the summaries so far.
  unfoldable pub collect_rows : List Value → List ℕ → List S → Result (List ℕ × List S)
  collect_rows [] seen summaries = ok (seen, summaries)
  collect_rows (row ∷ rows) seen summaries = bind (summarise row) λ summary.
      bind (require (not (contains (id_of summary) seen)) (fatal CiCode.malformed_pagination))
        λ _. collect_rows rows (id_of summary ∷ seen) (summaries ++ summary ∷ [])

-- A listing: the transport, the key of its rows, the path of a page and the limit on the total.
module _ {W S : Type 0} (summarise : Value → Result S) (id_of : S → ℕ) (request : Transport W)
    (key : String) (path : ℕ → String) (too_many : ℕ → Bool) where
  -- The loop over the pages that are left, from the page `page`.
  unfoldable pub list_pages : ℕ → ℕ → Option ℕ → List ℕ → List S → Action W (ℕ × List S)
  list_pages zero page expected seen summaries = raise (retryable CiCode.incomplete_pagination)
  list_pages (suc left) page expected seen summaries = do
    response ← get_json request (path page)
    items ← lift (page_items response key expected)
    lift (
        require (not (is_first_and expected (too_many items.0)))
          (retryable CiCode.incomplete_pagination))
    collected ← lift (collect_rows summarise id_of items.1 seen summaries)
    let n = length collected.1
    let more = list_pages left (page + 1) (some items.0) collected.0 collected.1
    if n == items.0
        then pure (items.0, collected.1)
        else if ltb items.0 n || ltb (length items.1) per_page
        then raise (retryable CiCode.incomplete_pagination)
        else more

  -- The first call of the loop.
  unfoldable pub list_all : Action W (ℕ × List S)
  list_all = list_pages max_pages 1 none [] []
