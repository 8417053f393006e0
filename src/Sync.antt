-- ===== src/Sync.antt =====
-- One cycle of synchronization: frontend/src-tauri/src/sync.rs, with
-- frontend/src-tauri/src/sync_push.rs and frontend/src-tauri/src/sync_pull.rs.
mod Wire
mod Push
mod Drain
mod Cycle
pub mod Protocol
mod Yields
mod Goes
pub mod Opens
mod Dispatches
pub mod Steps
pub mod Bounds
pub mod Refusals
unfoldable pub use Wire.*
unfoldable pub use Push.*
unfoldable pub use Drain.*
unfoldable pub use Cycle.*
