-- ===== src/Store.antt =====
-- The data of the local store: frontend/src-tauri/src/local_store.rs and the tables of
-- frontend/src-tauri/src/local_store/migrations.rs.
mod States
mod Rows
mod Failure
pub mod Keys
pub mod Names
unfoldable pub use States.*
unfoldable pub use Rows.*
unfoldable pub use Failure.*
