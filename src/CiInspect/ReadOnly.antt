-- ===== src/CiInspect/ReadOnly.antt =====
-- scripts/actions_ci_inspect.py sends nothing but GET requests, and raises only its own error.
use zach.Common.{ℕ, zero, suc, Bool, Option, List, [], ◌∷◌, String}
use zach.Python.Value.{Value, null}
use zach.Action.{Result}
use zach.Action.Confined.{
  Confined, Raises, Confined-pure, Confined-raise, Confined-lift, Confined-if, Confined-bind,
  Confined-try,
}
use zach.Platform.{Platform}
use zach.Journal.Api.{Transport, get_method}
use zach.Journal.Effects.{KeptBy}
use zach.CiInspect.Policy.{CiInspectionPolicy, get_json}
use zach.CiInspect.Runs.{RunSummary}
use zach.CiInspect.Pages.{list_pages, list_all}
use zach.CiInspect.Inspect.{
  list_runs, list_jobs, check_identities, inspect_selected, inspect_runs, observe, inspect_ci,
}
use zach.CiInspect.OwnError.{
  IsCiError, run_summary-own, job_summary-own, page_items-own, collect_rows-own,
  validate_policy-own, validate_parameters-own, bounded_result-own, own_require,
}

ruleset reading_rules =
    (Confined-pure, Confined-raise, Confined-lift, Confined-if, Confined-bind, own_require)

module _ {W : Type 0} (P : W → Type 0) (api_transport : Transport W)
    (gets : KeptBy P api_transport get_method) where
  get_json-Confined : (path : String) → Confined P IsCiError (get_json api_transport path)
  unfolding get_json
  get_json-Confined path = Confined-try _ _ (gets path null) λ e. Confined-raise tt

  list_pages-Confined :
      {S : Type 0} (summarise : Value → Result S) (id_of : S → ℕ)
      → ((row : Value) → Raises IsCiError (summarise row))
      → (key : String) (path : ℕ → String) (too_many : ℕ → Bool) (left page : ℕ)
        (expected : Option ℕ) (seen : List ℕ) (summaries : List S)
      → Confined P IsCiError (
          list_pages summarise id_of api_transport key path too_many left page expected seen
            summaries)
  unfolding list_pages
  list_pages-Confined summarise id_of own key path too_many zero page expected seen summaries =
      Confined-raise tt
  list_pages-Confined {S} summarise id_of own key path too_many (suc left) page expected seen
        summaries =
      let rest : (page' : ℕ) (expected' : Option ℕ) (seen' : List ℕ) (summaries' : List S)
          → Confined P IsCiError (
              list_pages summarise id_of api_transport key path too_many left page' expected' seen'
                summaries') =
        λ page' expected' seen' summaries'.
          list_pages-Confined summarise id_of own key path too_many left page' expected' seen'
            summaries' in
      Confined-bind _ _ (get_json-Confined _) λ response.
        Confined-bind _ _ (Confined-lift _ (page_items-own response key expected)) λ items.
          Confined-bind _ _ (Confined-lift _ (own_require _ _ _)) λ _.
            Confined-bind _ _
              (Confined-lift _ (collect_rows-own summarise id_of own items.1 seen summaries))
              λ collected. search (reading_rules, rest) depth 10

  module _ (policy : CiInspectionPolicy) where
    list_runs-Confined : (sha : String) → Confined P IsCiError (list_runs api_transport policy sha)
    unfolding list_runs list_all
    list_runs-Confined sha = list_pages-Confined _ _ (run_summary-own policy sha) _ _ _ _ _ _ _ _

    list_jobs-Confined :
        (sha : String) (run_id attempt : ℕ)
        → Confined P IsCiError (list_jobs api_transport policy sha run_id attempt)
    unfolding list_jobs list_all
    list_jobs-Confined sha run_id attempt =
        list_pages-Confined _ _ (job_summary-own policy sha run_id attempt) _ _ _ _ _ _ _ _

    check_identities-Confined :
        (sha : String) → Confined P IsCiError (check_identities api_transport policy sha)
    unfolding check_identities
    check_identities-Confined sha = search (reading_rules, get_json-Confined) depth 20

    inspect_selected-Confined :
        (sha : String) (selected : RunSummary)
        → Confined P IsCiError (inspect_selected api_transport policy sha selected)
    unfolding inspect_selected
    inspect_selected-Confined sha selected =
        search
          (
            reading_rules, get_json-Confined, list_runs-Confined, list_jobs-Confined,
            run_summary-own,
          )
          depth 20

    inspect_runs-Confined :
        (sha : String) (total : ℕ) (runs : List RunSummary)
        → Confined P IsCiError (inspect_runs api_transport policy sha total runs)
    inspect_runs-Confined sha total [] = Confined-pure _
    inspect_runs-Confined sha total (selected ∷ runs) = inspect_selected-Confined sha selected

    observe-Confined : (sha : String) → Confined P IsCiError (observe api_transport policy sha)
    unfolding observe
    observe-Confined sha =
        search (reading_rules, check_identities-Confined, list_runs-Confined, inspect_runs-Confined)
          depth 10

    -- An inspection keeps every property of the remote state that GET requests keep: it sends nothing
    -- else; and whatever the transport raises or answers, the only exception is `CiInspectError`.
    pub inspect_ci-Confined :
        {B : Type 0} (p : Platform B) (parameters : Value)
        → Confined P IsCiError (inspect_ci api_transport policy p parameters)
    unfolding inspect_ci
    inspect_ci-Confined p parameters =
        search
          (
            reading_rules, observe-Confined, validate_policy-own, validate_parameters-own,
            bounded_result-own,
          )
          depth 12
