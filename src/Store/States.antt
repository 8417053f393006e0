-- ===== src/Store/States.antt =====
-- The enumerations of local_store.rs, and the sets of states that its SQL names.
use skill_hive.Prelude.{Bool, true, false}

pub data SkillSyncState : Type 0 where
  remote_only synced dirty uploading conflict sync_error access_revoked corrupted : SkillSyncState

pub data MutationOperation : Type 0 where
  create update delete : MutationOperation

pub data MutationState : Type 0 where
  pending in_flight acked retryable_error conflict permission_denied permanent_error : MutationState

pub data DeploymentState : Type 0 where
  installing installed updating removing modified missing failed revoked : DeploymentState

abbrev pub is_acked : MutationState → Bool
is_acked MutationState.acked = true
is_acked _ = false

abbrev pub is_in_flight : MutationState → Bool
is_in_flight MutationState.in_flight = true
is_in_flight _ = false

abbrev pub is_conflict : MutationState → Bool
is_conflict MutationState.conflict = true
is_conflict _ = false

-- state IN ('pending', 'retryable_error')
abbrev pub is_queued : MutationState → Bool
is_queued MutationState.pending = true
is_queued MutationState.retryable_error = true
is_queued _ = false

abbrev pub is_delete : MutationOperation → Bool
is_delete MutationOperation.delete = true
is_delete _ = false

abbrev pub is_conflicted : SkillSyncState → Bool
is_conflicted SkillSyncState.conflict = true
is_conflicted _ = false

-- sync_state IN ('dirty', 'uploading', 'sync_error', 'conflict')
abbrev pub is_clearable : SkillSyncState → Bool
is_clearable SkillSyncState.dirty = true
is_clearable SkillSyncState.uploading = true
is_clearable SkillSyncState.sync_error = true
is_clearable SkillSyncState.conflict = true
is_clearable _ = false
