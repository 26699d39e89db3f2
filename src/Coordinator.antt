-- ===== src/Coordinator.antt =====
-- scripts/actions_journal_coordinator.py: the coordinator between the trusted command-line state
-- machine, which proposes each new record, and the Git journal, which stores it.
pub mod Policy
pub mod Cli
pub mod Results
pub mod Store
pub mod Accept
pub mod Claim
pub mod Owner
pub mod Effects
pub mod Writes
pub mod Acceptance
pub mod Claimed
pub mod Printed
