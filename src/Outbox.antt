-- ===== src/Outbox.antt =====
-- frontend/src-tauri/src/local_store/mutations.rs: local edits and the outbox of mutations.
pub mod Dispatch
mod Commit
pub mod Invariant
pub mod Claims
pub mod Claimed
pub mod Recovery
pub mod Inserted
pub mod Edits
pub mod Deletions
unfoldable pub use Dispatch.*
unfoldable pub use Commit.*
