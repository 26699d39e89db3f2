-- ===== src/Lib.antt =====
-- The Actions scripts of zach: a Git journal of requests, the coordinator that moves requests through it,
-- the inspection of CI runs, the dispatch of a recipe, and the handler that takes a request through its
-- phases.
--
-- A request is one JSON record in a file of the branch automation/requests. The journal
-- (scripts/actions_git_journal.py) reads the record through a pinned commit and tree, and publishes a
-- new record by a blob, a tree, a commit and an update of the branch that is not forced, which it then
-- reads back. The coordinator (scripts/actions_journal_coordinator.py) runs the compiled CLI in a private
-- directory to compute the next record and publishes it through the journal. The inspection
-- (scripts/actions_ci_inspect.py) only reads the GitHub API, which all of them reach through the client of
-- scripts/actions_github_api.py. The recipe dispatch
-- (scripts/actions_recipe_dispatch.py) starts one workflow run and can find it again. The request handler
-- (scripts/actions_request_handler.py) composes them: its Publisher phase accepts and claims a request and
-- hands a bundle to the Control phase, which performs the effect and posts a receipt on the issue; the
-- Publisher reads the receipt back and ends the request. The phases share nothing but the bundle, the
-- issue and the journal.
--
-- Files:
--   Common     Boolean tests, lists and predicates on text, shared by all
--   Python     decoded JSON as Python values, and the hook against repeated keys
--   Action     results with exceptions as values, and actions: functions from the state of the
--              surroundings to a result and the next state, with rules for what they keep and raise
--   Platform   what the scripts use of Python's library, as a record of parameters
--   Journal    Record, Contents, Api, Load and Publish follow the functions of actions_git_journal.py;
--              Effects, Gate, Receipt, LostAnswer, Snapshot and Parsed prove
--   Coordinator  Policy, Cli, Results, Store, Accept, Claim and Owner follow
--              actions_journal_coordinator.py; Effects, Printed, Writes, Acceptance and Claimed prove
--   CiInspect  Policy, Timestamp, Runs, Pages, Jobs, Order, Inspection and Inspect follow
--              actions_ci_inspect.py; Rows, Listing, Sorted, RunEquality, Observed, OwnError and ReadOnly
--              prove
--   Dispatch   Policy, Parameters, Validate, Run, Scan and Recipe follow actions_recipe_dispatch.py;
--              Once and Proved prove
--   Handler    Bundle, Results, Comment, Marker, Handoff, Receipt, Publisher, Trusted, Binding, Phase,
--              Checkpoint, Envelope, Prepare, Observe, Effect, Control, Finalize and Handle
--              follow actions_request_handler.py; RoundTrip, Canonical, Checkpointed, Reading,
--              Quiet, Ensured, Found, Intended, Unchanged, Selected, Observed, Gate, Listing and
--              ReadBack prove
--   Github     Path and Body follow the checks of actions_github_api.py on the path and the body of a
--              request; Namespace and Bounds prove
--   Tests      a small remote, a CLI and the inputs of the examples
--
-- State: the type W of the surroundings (the remote repository, the file system, the child processes) is
-- a parameter, as are the transport `request`, the `Host` and the `Platform`: they stand for code outside
-- of the repository or for I/O, and no law of them is assumed. An exception ends an action with an `err`
-- and keeps the state that the calls have left. A theorem on effects says that a property of W that
-- some requests keep is kept by an operation; for an arbitrary property this bounds what is sent.
--
-- Bounds: the only loops with a count are those over at most 10 pages, in CiInspect, Dispatch and
-- Handler, over the 9 decodings of a path and over the 256 * 1024 values of a body, in Github, which the
-- source counts too; all others recurse on lists. Numbers are natural; an int below 0 is a value of its own.
--
-- Not modelled: texts with lone surrogates, which JSON can escape and `encode` refuses, since a text here
-- is a sequence of Unicode scalar values; checks of run-time types that a typed argument passes by its
-- type; the texts of messages; the process runner with its pipes and deadlines (_run_bounded_process);
-- the answers, the downloads and the HTTP connection of scripts/actions_github_api.py; the other scripts
-- and the Rust sources. The calls of urllib.parse are the parameter UrlLibrary.
pub mod Common
pub mod Python
pub mod Action
pub mod Platform
pub mod Journal
pub mod Coordinator
pub mod CiInspect
pub mod Dispatch
pub mod Github
pub mod Handler
pub mod Tests
