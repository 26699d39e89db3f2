-- ===== src/CiInspect.antt =====
-- scripts/actions_ci_inspect.py: a bounded, read-only observation of the CI runs of one commit.
pub mod Policy
pub mod Timestamp
pub mod Runs
pub mod Pages
pub mod Jobs
pub mod Order
pub mod Inspection
pub mod Inspect
pub mod Rows
pub mod Listing
pub mod Sorted
pub mod RunEquality
pub mod Observed
pub mod OwnError
pub mod ReadOnly
