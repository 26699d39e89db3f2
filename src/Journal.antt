-- ===== src/Journal.antt =====
-- scripts/actions_git_journal.py: the journal of requests on a fixed ref of a GitHub repository, with
-- an injected transport and transition validator.
pub mod Record
pub mod Contents
pub mod Api
pub mod Load
pub mod Publish
pub mod Effects
pub mod LostAnswer
pub mod Gate
pub mod Receipt
pub mod Snapshot
pub mod Parsed
