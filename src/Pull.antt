-- ===== src/Pull.antt =====
-- frontend/src-tauri/src/local_store/pull_apply.rs: a pulled page of changes, in one transaction.
mod Apply
pub mod Preserves
mod Changes
pub mod Page
pub mod Replay
unfoldable pub use Apply.*
