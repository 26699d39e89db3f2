-- ===== src/Github.antt =====
-- The transport of scripts/actions_github_api.py.
pub mod Path
pub mod Namespace
pub mod Body
pub mod Bounds
