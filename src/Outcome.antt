-- ===== src/Outcome.antt =====
-- frontend/src-tauri/src/local_store/outcomes.rs: durable outcomes of dispatched mutations.
mod Apply
pub mod Statuses
pub mod Backoff
pub mod Keeps
pub mod Transitions
pub mod Replay
pub mod Settled
unfoldable pub use Apply.*
