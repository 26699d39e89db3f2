-- ===== src/Dispatch/Scan.antt =====
-- `_run_snapshot` and `_scan_runs` of scripts/actions_recipe_dispatch.py.
use zach.Common.{
  ℕ, zero, suc, ◌+◌, Bool, true, false, not, ◌&&◌, List, [], ◌∷◌, ◌++◌, String, ◌⊹◌, show, ltb, leb,
  ◌==◌, length, contains, if◌then◌else◌,
}
use zach.Python.Value.{Value, null, int, list, elements, get}
use zach.Python.Equal.{values_eq}
use zach.Action.{Result, ok, err, Action, bind, require, or_raise, pure, lift, raise, try, ◌>>=◌}
use zach.Action.Error.{RecipeCode}
use zach.Platform.{Platform}
use zach.Journal.Api.{Transport, get_method}
use zach.CiInspect.Policy.{positive_int}
use zach.Dispatch.Policy.{
  RecipeDispatchPolicy, ambiguous, max_reconciliation_pages, reconciliation_per_page,
}
use zach.Dispatch.Validate.{repo_url}

-- The tuple of a run, whose first component is the id; `get` of what is no dictionary is `None`.
unfoldable pub run_snapshot : Value → Result (ℕ × List Value)
run_snapshot run =
    bind
      (or_raise (positive_int (get "id" run))
        (ambiguous RecipeCode.recipe_reconciliation_malformed))
      λ run_id. ok (
        run_id,
        get "id" run
            ∷ get "workflow_id" run
            ∷ get "path" run
            ∷ get "event" run
            ∷ get "head_branch" run
            ∷ get "head_sha" run
            ∷ get "display_title" run
            ∷ get "created_at" run
            ∷ get "id" (get "actor" run)
            ∷ get "id" (get "repository" run)
            ∷ get "full_name" (get "repository" run)
            ∷ get "id" (get "head_repository" run)
            ∷ get "full_name" (get "head_repository" run)
            ∷ get "url" run
            ∷ get "html_url" run
            ∷ [],
      )

-- The runs so far: their ids, their tuples and the runs with their ids.
pub record Scan : Type 0 where
  pub seen : List ℕ
  pub snapshot : List (List Value)
  pub runs : List (ℕ × Value)

-- The loop over the runs of one page.
unfoldable pub scan_page : List Value → Scan → Result Scan
scan_page [] scan = ok scan
scan_page (run ∷ page_runs) scan = bind (run_snapshot run) λ item.
    bind
      (require (not (contains item.0 scan.seen))
        (ambiguous RecipeCode.recipe_reconciliation_duplicate_run))
      λ _. scan_page page_runs (record {
        seen = item.0 ∷ scan.seen;
        snapshot = scan.snapshot ++ item.1 ∷ [];
        runs = scan.runs ++ (item.0, run) ∷ [];
      })

abbrev pub total_and_runs : Value → Value → Result (ℕ × List Value)
total_and_runs (int total_count) (list page_runs) =
    if leb (length (elements page_runs)) reconciliation_per_page
    then ok (total_count, elements page_runs)
    else err (ambiguous RecipeCode.recipe_reconciliation_malformed)
total_and_runs _ _ = err (ambiguous RecipeCode.recipe_reconciliation_malformed)

module _ {B W : Type 0} (p : Platform B) (api_transport : Transport W)
    (policy : RecipeDispatchPolicy) where
  abbrev pub scan_path : ℕ → String
  scan_path page =
      repo_url policy
      ⊹ "/actions/workflows/"
      ⊹ show policy.workflow_id
      ⊹ "/runs?event=workflow_dispatch&branch="
      ⊹ p.quote policy.ref
      ⊹ "&per_page=100&page="
      ⊹ show page

  -- The loop over the pages that are left, from the page `page`.
  unfoldable pub scan_pages : ℕ → ℕ → Scan → Action W Scan
  scan_pages zero page scan = raise (ambiguous RecipeCode.recipe_reconciliation_pagination_exceeded)
  scan_pages (suc left) page scan = do
    response ←
        try (api_transport get_method (scan_path page) null)
          (λ _. raise (ambiguous RecipeCode.recipe_reconciliation_api_failed))
    listed ← lift (total_and_runs (get "total_count" response) (get "workflow_runs" response))
    scanned ← lift (scan_page listed.1 scan)
    let more = scan_pages left (page + 1) scanned
    if ltb (length listed.1) reconciliation_per_page
        then if length scanned.runs == listed.0
          then pure scanned
          else raise (ambiguous RecipeCode.recipe_reconciliation_incomplete)
        else more

  unfoldable pub scan_runs : Action W Scan
  scan_runs = scan_pages max_reconciliation_pages 1 (record { seen = []; snapshot = []; runs = [] })

-- `==` of two snapshots
abbrev pub snapshots_eq : List (List Value) → List (List Value) → Bool
snapshots_eq [] [] = true
snapshots_eq (a ∷ rows) (b ∷ others) = values_eq a b && snapshots_eq rows others
snapshots_eq _ _ = false
