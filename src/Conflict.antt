-- ===== src/Conflict.antt =====
-- frontend/src-tauri/src/local_store/conflicts.rs: explicit resolution of conflicts.
mod Resolve
pub mod Keeps
pub mod Local
pub mod Remote
pub mod Oldest
pub mod Listing
unfoldable pub use Resolve.*
