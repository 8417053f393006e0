-- ===== src/Store/Names.antt =====
-- `as_db_str` and `from_db_str` of the enumerations of local_store.rs.

pub mod SyncState
pub mod Operation
pub mod Mutation
pub mod Deployment
pub mod Columns
