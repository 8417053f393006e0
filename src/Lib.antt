-- ===== src/Lib.antt =====
-- SkillHive's desktop client: its durable local store and the synchronization state that it keeps.
--
-- The program. The client keeps skills, an outbox of mutations, leases, deployments and one row of
-- synchronization state in an SQLite database. An edit writes the skill and appends a mutation in
-- one transaction. The push side claims mutations, sends them, and applies the outcome that the
-- server reports for each. The pull side applies pages of changes from the server together with the
-- cursor. Conflicts are resolved explicitly. A login binds the database to a server and an account.
--
-- The files. Each operation is a function from the store to an error or to a result and a store: an
-- error drops the transaction, so the store stays as it was.
--   Prelude    Boolean tests, list lemmas, SQL statements on a table as the list of its rows, texts.
--   Store      frontend/src-tauri/src/local_store.rs: rows, enumerations, errors; Store/Names has the
--              texts of the columns, Store/Keys the primary key of the skills.
--   Outbox     frontend/src-tauri/src/local_store/mutations.rs: Dispatch has `read_dispatchable`,
--              `claim_dispatchable_mutations`, `release_in_flight_mutations` and
--              `recover_in_flight_mutations`; Commit has `commit_skill_edit`, `queue_skill_delete` and
--              `next_local_sequence`. Invariant has what the other modules show to be kept.
--   Outcome    frontend/src-tauri/src/local_store/outcomes.rs: `apply_mutation_outcome` in Apply.
--   Conflict   frontend/src-tauri/src/local_store/conflicts.rs: `list_conflicts`,
--              `resolve_keep_local` and `resolve_keep_remote` in Resolve.
--   Scope      frontend/src-tauri/src/local_store/sync_state.rs: all its operations in State.
--   Entitlement  frontend/src-tauri/src/local_store/entitlements.rs: all its operations in Lease.
--   Pull       frontend/src-tauri/src/local_store/pull_apply.rs: `apply_changes_page` in Apply.
--   Journey    sequences of these operations on one store, as a step relation.
--   Deploy     frontend/src-tauri/src/deployment.rs: the journal file in Journal, the checks of names
--              in Names, the single reads and writes in Machine, `deploy` and
--              `acknowledge_catalog_commit` in Engine, `recover_one` in Recovery and
--              `recover_incomplete` in Report. Rules has the rules by which the other modules show what
--              holds when a run ends or dies.
--   Snapshot   frontend/src-tauri/src/skill_snapshot.rs: `validate_manifest` in Manifest;
--              frontend/src-tauri/src/sync_transport.rs: `snapshot_closure` in Closure; and
--              frontend/src-tauri/src/snapshot_verifier.rs: `verify_materialized_snapshot` in Verify.
--   Sync       frontend/src-tauri/src/sync.rs (`run_cycle_inner` in Cycle, `dispatch_mutation` in
--              Push), frontend/src-tauri/src/sync_push.rs (Wire) and
--              frontend/src-tauri/src/sync_pull.rs (`pull_changes` in Drain). A cycle calls the
--              operations of Outbox, Outcome, Scope, Pull and Entitlement; Protocol has what it may
--              do with them, and where each outcome that it applies comes from.
--   Tests      the properties at concrete inputs.
--
-- What stands for what. The clock, the identifiers that `Uuid::new_v4` draws and the directory for
-- temporary files are arguments. Times are numbers; those of CURRENT_TIMESTAMP count seconds. The
-- source compares the instants of leases as RFC 3339 texts, in the order of the instants up to the
-- year 9999. The parser of instants is an argument; what serde makes of a page is the data that the
-- page carries. Signed 64-bit integers are unbounded, but for the next sequence number of a skill,
-- which cannot be read beyond 2^63 - 1; a retry counter that does not fit 32 bits fails to be read,
-- as in the source. `backoff_seconds` keeps the saturating power of 64-bit integers. A statement
-- fails where a UNIQUE, CHECK or FOREIGN KEY constraint of
-- frontend/src-tauri/src/local_store/migrations.rs rejects it, and a DELETE of a skill cascades. The
-- loops over
-- rows are structural recursion. The loop of `pull_changes` is given as many rounds as the bound on
-- its pages, 100, and never needs more.
--
-- A deployment transaction is a run over the three entries of the skill root that it names and its
-- journal file. Each write has a fate: it works, it fails with a part of it done, or the process
-- dies with a part of it done. Trees of files are values of any type; the materialization of a
-- snapshot, its verification, and what other programs do to a tree that is moved to its destination
-- are arguments. Other programs may change that tree until it is verified there, and not
-- afterwards. Verification depends on the tree alone: reads of the disk do not fail. Paths are
-- texts, read as those of Unix; the entries are no symbolic links, and the journals are regular
-- files. The verifier is given the files of a tree in the order of their paths, the digest of bytes
-- and the manifests that are read: Snapshot/Verify.antt makes of it what the transaction takes.
--
-- A cycle takes the answers of the server, the uploads and downloads of blobs and the clock as
-- arguments, which may answer differently each time; the application of one page has one time. An
-- error of a cycle keeps its kind and its stage.
--
-- Not modelled: the database file, its locks and its migrations; columns that only record when a
-- row was written; HTTP, the keyring, telemetry and the file system below the entries of a skill
-- root. The capture and the materialization of snapshots, archives, the blob cache, the worker
-- thread, the other tables of the store, the backend and the web frontend have no model here.
pub mod Prelude
pub mod Store
pub mod Outbox
pub mod Outcome
pub mod Conflict
pub mod Scope
pub mod Entitlement
pub mod Pull
pub mod Journey
pub mod Deploy
pub mod Sync
pub mod Snapshot
pub mod Tests
