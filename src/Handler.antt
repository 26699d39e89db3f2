-- ===== src/Handler.antt =====
-- The request handler: scripts/actions_request_handler.py.
pub mod Bundle
pub mod Results
pub mod Comment
pub mod Marker
pub mod Handoff
pub mod Receipt
pub mod Publisher
pub mod Trusted
pub mod Binding
pub mod Phase
pub mod Checkpoint
pub mod Envelope
pub mod Prepare
pub mod Observe
pub mod Effect
pub mod Control
pub mod Finalize
pub mod Handle
pub mod RoundTrip
pub mod Canonical
pub mod Checkpointed
pub mod Reading
pub mod Quiet
pub mod Selected
pub mod Observed
pub mod Gate
pub mod Listing
pub mod ReadBack
pub mod Ensured
pub mod Found
pub mod Intended
pub mod Unchanged
