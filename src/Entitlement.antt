-- ===== src/Entitlement.antt =====
-- frontend/src-tauri/src/local_store/entitlements.rs: leases and what their expiry does.
mod Lease
pub mod Expiry
unfoldable pub use Lease.*
