-- ===== src/Journey.antt =====
-- The store through any sequence of the operations of frontend/src-tauri/src/local_store/.
pub mod Keys
pub mod Reach
pub mod Work
