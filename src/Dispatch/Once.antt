-- ===== src/Dispatch/Once.antt =====
-- scripts/actions_recipe_dispatch.py dispatches at most once, and its reconciliation only reads.
use zach.Common.{ℕ, zero, suc, ◌≡◌, ◌⊎◌, inl, inr, refl, Bool, true, String}
use zach.Python.Value.{Value, str}
use zach.Action.{Result, ok, err, Action, lift, raise, try, resume, continue, ◌>>=◌}
use zach.Action.Error.{Exc}
use zach.Action.Confined.{Confined, Confined-bind}
use zach.Platform.{Platform}
use zach.Journal.Api.{Transport, get_method, post_method}
use zach.Journal.Effects.{Any, KeptBy, Any-lift, Any-raise, any_rules}
use zach.Dispatch.Policy.{RecipeDispatchPolicy, get_json, validate_policy}
use zach.Dispatch.Parameters.{RecipeInputs, validate_parameters, parse_timestamp}
use zach.Dispatch.Run.{preflight, readback}
use zach.Dispatch.Scan.{Scan, scan_pages, scan_runs}
use zach.Dispatch.Recipe.{
  dispatches_path, dispatch_body, dispatch_failure, send_dispatch, dispatched_run, dispatch_recipe,
  reconcile_recipe,
}

-- From `P` to `R`, however the block ends.
module _ {W A B : Type 0} (P R : W → Type 0) (weaker : (w : W) → P w → R w) where
  leads_lift :
      (r : Result A) (f : A → Action W B)
      → ((a : A) → r ≡ ok a → (w : W) → P w → R (f a w).1)
      → (w : W) → P w
      → R ((lift r >>= f) w).1
  unfolding ◌>>=◌
  leads_lift (ok a) f k w h = k a refl w h
  leads_lift (err e) f k w h = weaker w h

  leads_bind :
      (m : Action W A) (f : A → Action W B)
      → ((w : W) → P w → P (m w).1)
      → ((a : A) (w : W) → P w → R (f a w).1)
      → (w : W) → P w
      → R ((m >>= f) w).1
  unfolding ◌>>=◌
  leads_bind m f kept k w h = split (m w).0
    where
      split : (r : Result A) → R (continue r f (m w).1).1
      split (ok a) = k a (m w).1 (kept w h)
      split (err e) = weaker (m w).1 (kept w h)

-- The step from `P` to `R`, and a rest that keeps `R`.
leads_then :
    {W A B : Type 0} (P R : W → Type 0) (m : Action W A) (f : A → Action W B)
    → ((w : W) → P w → R (m w).1)
    → ((a : A) (w : W) → R w → R (f a w).1)
    → (w : W) → P w
    → R ((m >>= f) w).1
unfolding ◌>>=◌
leads_then {A = A} P R m f step k w h = split (m w).0
  where
    split : (r : Result A) → R (continue r f (m w).1).1
    split (ok a) = k a (m w).1 (step w h)
    split (err e) = step w h

leads_try :
    {W A : Type 0} (P R : W → Type 0) (m : Action W A) (e : Exc → Exc)
    → ((w : W) → P w → R (m w).1)
    → (w : W) → P w
    → R (try m (λ x. raise (e x)) w).1
unfolding try
leads_try {A = A} P R m e step w h = split (m w).0
  where
    split : (r : Result A) → R (resume r (λ x. raise (e x)) (m w).1).1
    split (ok a) = step w h
    split (err x) = step w h

module _ {B W : Type 0} (p : Platform B) (api_transport : Transport W)
    (policy : RecipeDispatchPolicy) (P : W → Type 0)
    (gets : KeptBy P api_transport get_method) where
  get_json-Confined : (path : String) → Confined P Any (get_json api_transport path)
  unfolding get_json
  get_json-Confined path = search (any_rules, gets)

  preflight-Confined : (b : Bool) → Confined P Any (preflight policy api_transport b)
  unfolding preflight
  preflight-Confined b = search (any_rules, get_json-Confined) depth 12

  readback-Confined :
      (run_id accepted_at : ℕ) (inputs : RecipeInputs)
      → Confined P Any (readback p policy api_transport run_id accepted_at inputs)
  unfolding readback
  readback-Confined run_id accepted_at inputs = search (any_rules, gets) depth 8

  scan_pages-Confined :
      (left page : ℕ) (scan : Scan)
      → Confined P Any (scan_pages p api_transport policy left page scan)
  unfolding scan_pages
  scan_pages-Confined zero page scan = Any-raise _
  scan_pages-Confined (suc left) page scan =
      let rest : (page' : ℕ) (scan' : Scan)
          → Confined P Any (scan_pages p api_transport policy left page' scan') =
        λ page' scan'. scan_pages-Confined left page' scan' in
      search (any_rules, gets, rest) depth 14

  scan_runs-Confined : Confined P Any (scan_runs p api_transport policy)
  unfolding scan_runs
  scan_runs-Confined = scan_pages-Confined _ _ _

  -- A reconciliation keeps every property of the remote state that GET requests keep: it never repeats
  -- the dispatch, whatever the transport answers or raises.
  pub reconcile_recipe-Confined :
      (parameters : Value) (request_id accepted_at : String)
      → Confined P Any (reconcile_recipe p api_transport policy parameters request_id accepted_at)
  unfolding reconcile_recipe
  reconcile_recipe-Confined parameters request_id accepted_at =
      search (any_rules, preflight-Confined, scan_runs-Confined, readback-Confined) depth 20

module _ {B W : Type 0} (p : Platform B) (api_transport : Transport W)
    (policy : RecipeDispatchPolicy) (P Q : W → Type 0) (before : KeptBy P api_transport get_method)
    (after : KeptBy Q api_transport get_method) where
  Either : W → Type 0
  Either w = P w ⊎ Q w

  -- A dispatch sends at most one request that is no GET. If GET requests keep `P` and keep `Q`, and the one
  -- request with the checked inputs leads from `P` to `Q`, then a dispatch that starts in `P` ends, in
  -- any way, in `P` or in `Q`.
  pub dispatch_recipe-once :
      (parameters : Value) (request_id accepted_at : String)
      → ((inputs : RecipeInputs) (workflow_id : Value)
          → validate_parameters p parameters policy request_id ≡ ok inputs
          → (w : W) → P w
          → Q
              (api_transport post_method
                (dispatches_path p api_transport policy workflow_id)
                (dispatch_body policy inputs)
                w).1)
      → (w : W) → P w
      → P (dispatch_recipe p api_transport policy parameters request_id accepted_at w).1
        ⊎ Q (dispatch_recipe p api_transport policy parameters request_id accepted_at w).1
  unfolding dispatch_recipe send_dispatch Either
  dispatch_recipe-once parameters request_id accepted_at post =
      leads_lift P Either (λ w h. inl h) (validate_policy policy) _
        λ _ _.
          leads_lift P Either (λ w h. inl h) (validate_parameters p parameters policy request_id) _
            λ inputs checked.
              leads_lift P Either (λ w h. inl h) (parse_timestamp (str accepted_at)) _
                λ time _.
                  leads_bind P Either (λ w h. inl h) (preflight policy api_transport true) _
                    (preflight-Confined p api_transport policy P before true).keeps
                    λ workflow_id.
                      leads_then P Either (send_dispatch p api_transport policy inputs workflow_id)
                        _
                        (leads_try P Either _ dispatch_failure
                          λ w h. inr (post inputs workflow_id checked w h))
                        (rest inputs time)
    where
      rest :
          (inputs : RecipeInputs) (time : ℕ) (response : Value) (w : W)
          → Either w
          → Either
              ((lift (dispatched_run policy response) >>= λ run_id.
                  readback p policy api_transport run_id time inputs)
                w).1
      rest inputs time response w (inl h) = inl (
          (Confined-bind _ _ (Any-lift (dispatched_run policy response))
              λ run_id. readback-Confined p api_transport policy P before run_id time inputs).keeps
            w h)
      rest inputs time response w (inr h) = inr (
          (Confined-bind _ _ (Any-lift (dispatched_run policy response))
              λ run_id. readback-Confined p api_transport policy Q after run_id time inputs).keeps
            w h)
