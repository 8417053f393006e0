-- ===== src/Snapshot.antt =====
-- frontend/src-tauri/src/skill_snapshot.rs, snapshot_verifier.rs and snapshot_closure of sync_transport.rs:
-- the manifests of snapshots, the blobs they need, and the trees that they describe.
mod Manifest
pub mod Accepted
mod Closure
pub mod Needed
pub mod Verify
pub mod Exact
unfoldable pub use Manifest.*
unfoldable pub use Closure.*
