-- ===== src/Scope.antt =====
-- frontend/src-tauri/src/local_store/sync_state.rs: the server and account that the local data
-- belongs to, the pull cursor, and the identity of the installation.
mod State
pub mod Trust
pub mod Closed
unfoldable pub use State.*
