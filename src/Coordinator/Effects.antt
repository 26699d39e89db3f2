-- ===== src/Coordinator/Effects.antt =====
-- What the coordinator's runs of the child leave alone: every property of the state that the injected
-- runner and file system keep.
use zach.Common.{ℕ, ◌⊎◌, inl, inr, Option, List, String}
use zach.Action.{Result, ok, err, Action}
use zach.Action.Confined.{Confined, Confined-bind}
use zach.Action.Inversion.{past_bind}
use zach.Platform.{Platform}
use zach.Journal.Api.{Transport, get_method}
use zach.Journal.Effects.{Any, KeptBy, Any-Raises, any_rules, load-Confined}
use zach.Coordinator.Cli.{Host, invoke, write_private, removed, with_directory}
use zach.Coordinator.Store.{load_snapshot}
use zach.Coordinator.Claim.{run_claim}
use zach.Coordinator.Owner.{run_mutation}

-- The property survives each use of the host.
pub record KeptByHost {B W : Type 0} (P : W → Type 0) (host : Host B W) : Type 0 where
  pub runs : (argv : List String) → Confined P Any (host.run_cli argv)
  pub opens : Confined P Any host.open_directory
  pub closes : (directory : String) → Confined P Any (host.close_directory directory)
  pub creates :
      (path : String) (content : B) (w : W) → P w → P (host.create_private path content w).1

module _ {B W : Type 0} (P : W → Type 0) (host : Host B W) (kept : KeptByHost P host) where
  pub write_private-Confined :
      (directory name : String) (content : B)
      → Confined P Any (write_private host directory name content)
  unfolding write_private
  write_private-Confined directory name content = record {
    keeps = λ w h. kept.creates _ content w h;
    raises = λ w h. Any-Raises _;
  }

  -- The removal of the directory keeps the property too.
  pub removed_keeps :
      {A G : Type 0} (r : Result A) (directory : String) (w : W)
      → P w ⊎ G
      → P (removed host r (host.close_directory directory w)).1 ⊎ G
  removed_keeps r directory w (inl h) =
      inl (close (host.close_directory directory w) ((kept.closes directory).keeps w h))
    where
      close : (c : Result (Unit {0}) × W) → P c.1 → P (removed host r c).1
      close (ok _, w') k = k
      close (err e, w') k = k
  removed_keeps r directory w (inr g) = inr g

  pub with_directory-Confined :
      {A : Type 0} (block : String → Action W A)
      → ((directory : String) → Confined P Any (block directory))
      → Confined P Any (with_directory host block)
  unfolding with_directory
  with_directory-Confined block inside = Confined-bind _ _ kept.opens λ directory. record {
    keeps = λ w h.
        let (r, w') = block directory w in
        elim (removed_keeps {G = ⊥} r directory w' (inl ((inside directory).keeps w h))) [
          | inl k ↦ k
          | inr g ↦ absurd g
        ];
    raises = λ w h. Any-Raises _;
  }

module _ {B W A G : Type 0} (P : W → Type 0) (host : Host B W) (kept : KeptByHost P host) where
  -- A block in a directory keeps the property, or it got far enough to know `G`.
  pub past_with_directory :
      (block : String → Action W A) (w : W)
      → P w
      → ((directory : String) (w₁ : W) → P w₁ → P (block directory w₁).1 ⊎ G)
      → P (with_directory host block w).1 ⊎ G
  unfolding with_directory
  past_with_directory block w h inside =
      past_bind P host.open_directory _ w (kept.opens.keeps w h) λ directory _.
        let w₁ = (host.open_directory w).1 in
        let (r, w₂) = block directory w₁ in
        removed_keeps P host kept r directory w₂ (inside directory w₁ (kept.opens.keeps w h))

module _ {B W : Type 0} (p : Platform B) (P : W → Type 0) (host : Host B W)
    (kept : KeptByHost P host) (cli : String) where
  pub invoke-Confined :
      (command : String) (arguments : List String) (allowed : List ℕ)
      → Confined P Any (invoke p host cli command arguments allowed)
  unfolding invoke
  invoke-Confined command arguments allowed = search (any_rules, kept.runs) depth 8

  pub run_claim-Confined :
      (request_id execution_id stored directory : String)
      → Confined P Any (run_claim p host cli request_id execution_id stored directory)
  unfolding run_claim
  run_claim-Confined request_id execution_id stored directory =
      search (any_rules, write_private-Confined P host kept, invoke-Confined) depth 8

  pub run_mutation-Confined :
      (request_id stored command : String) (arguments : List String) (reference : Option String)
      (directory : String)
      → Confined P Any
          (run_mutation p host cli request_id stored command arguments reference directory)
  unfolding run_mutation
  run_mutation-Confined request_id stored command arguments reference directory =
      search (any_rules, write_private-Confined P host kept, invoke-Confined) depth 8

module _ {B W : Type 0} (p : Platform B) (request : Transport W) (P : W → Type 0)
    (gets : KeptBy P request get_method) where
  pub load_snapshot-Confined :
      (request_id : String) → Confined P Any (load_snapshot p request request_id)
  unfolding load_snapshot
  load_snapshot-Confined request_id = search (any_rules, load-Confined p request P gets)
