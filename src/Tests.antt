-- ===== src/Tests.antt =====
-- The properties at concrete inputs.
mod Fixtures
mod Outbox
mod Outcome
mod Conflict
mod Scope
mod Pull
mod Journey
mod Deploy
mod Sync
mod Snapshot
mod Exact
