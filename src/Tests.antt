-- ===== src/Tests.antt =====
-- Concrete inputs for the theorems: a small platform, a remote repository and an installed CLI.
mod Toy
mod JournalRuns
mod CoordinatorRuns
mod CiRuns
mod DispatchRuns
mod HandlerToy
mod HandlerRuns
pub mod GithubRuns
