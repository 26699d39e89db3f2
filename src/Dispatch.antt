-- ===== src/Dispatch.antt =====
-- scripts/actions_recipe_dispatch.py: one dispatch of a trusted recipe, and its reconciliation.
pub mod Policy
pub mod Parameters
pub mod Validate
pub mod Run
pub mod Scan
pub mod Recipe
pub mod Once
pub mod Proved
