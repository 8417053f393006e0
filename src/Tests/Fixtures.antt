-- ===== src/Tests/Fixtures.antt =====
-- A store that the tests share, and a run of operations on it.
use skill_hive.Prelude.{◌≡◌, refl, true, false, none, some, [], ◌∷◌, pos}
use skill_hive.Store.{
  CommitSkillEdit, LocalSkill, LocalMutation, LocalSyncState, LocalStore, MutationState,
  MutationOperation, SkillSyncState, ok, validate_non_empty,
}
use skill_hive.Store.Keys.{IsKeyed}
use skill_hive.Outbox.{
  pending_mutation, commit_skill_edit, validate_edit, path_to_string, upsert_edited_skill,
  insert_mutation, next_local_sequence, next_sequence, claim_dispatchable_mutations,
  read_dispatchable, claim_each, read_mutation, mark_in_flight,
}
use skill_hive.Outbox.Invariant.{IsOutbox}
use skill_hive.Outbox.Edits.{commit-IsOutbox}
use skill_hive.Outcome.{
  MutationOutcome, OutcomeApplied, apply_mutation_outcome, mutation_row, apply_to_row, apply_status,
  apply_acked, read_skill_state, mutation_state_of, acked_mutation, acked_skill, synced_skill,
  refused_mutation, refused_skill,
}

abbrev pub bound_sync : LocalSyncState
bound_sync = record {
  protocol_version = 1;
  client_instance_id = some "client-1";
  device_id = some "device-1";
  server_user_id = some "user-1";
  server_url = some "https://hub";
  server_login_identity = some "ana";
  server_cursor = some "v1.A";
  last_successful_push_at = none;
  last_successful_pull_at = none;
  last_server_error = none;
}

abbrev pub fresh_store : LocalStore
fresh_store = record {
  skills = [];
  mutations = [];
  entitlements = [];
  deployments = [];
  sync = bound_sync;
}

abbrev pub first_edit : CommitSkillEdit
first_edit = record {
  skill_id = "skill-1";
  remote_id = none;
  name = "Notes";
  slug = "notes";
  workspace_path = record { to_str = some "/work/notes"; is_absolute = true };
  blob_hash = "hash-1";
  base_revision = none;
  operation = MutationOperation.create;
}

abbrev pub first_row : LocalMutation
first_row = pending_mutation "mut-1" "skill-1" 1 MutationOperation.create none "hash-1" 100

abbrev pub first_skill : LocalSkill
first_skill = record {
  id = "skill-1";
  remote_id = none;
  name = "Notes";
  slug = "notes";
  workspace_path = "/work/notes";
  current_blob_hash = "hash-1";
  remote_blob_hash = none;
  remote_revision = none;
  sync_state = SkillSyncState.dirty;
  pinned = false;
}

abbrev pub edited_store : LocalStore
edited_store = record fresh_store { skills = first_skill ∷ []; mutations = first_row ∷ [] }

pub first_edit_valid : validate_edit first_edit ≡ ok "/work/notes"
unfolding validate_edit validate_non_empty path_to_string
first_edit_valid = refl

pub edit_run : commit_skill_edit "mut-1" 100 first_edit fresh_store ≡ ok (first_row, edited_store)
unfolding commit_skill_edit validate_edit validate_non_empty path_to_string upsert_edited_skill
    insert_mutation next_local_sequence next_sequence
edit_run = refl

abbrev pub flying_row : LocalMutation
flying_row = mark_in_flight 110 first_row

abbrev pub claimed_store : LocalStore
claimed_store = record edited_store { mutations = flying_row ∷ [] }

pub claim_run :
    claim_dispatchable_mutations 110 10 edited_store ≡ ok (flying_row ∷ [], claimed_store)
unfolding claim_dispatchable_mutations read_dispatchable claim_each read_mutation
claim_run = refl

pub fresh_keys : IsKeyed fresh_store.skills
fresh_keys a b inside other same = elim inside [ ]

pub fresh-IsOutbox : IsOutbox fresh_store.mutations
fresh-IsOutbox = record {
  keyed = λ a b inside other same. elim inside [ ];
  sequenced = λ a b inside other same level. elim inside [ ];
  causal = λ m inside flying. elim inside [ ];
}

pub edited-IsOutbox : IsOutbox edited_store.mutations
edited-IsOutbox =
    commit-IsOutbox "mut-1" 100 first_edit fresh_store first_row edited_store edit_run
      fresh-IsOutbox

abbrev pub acked_outcome : MutationOutcome
acked_outcome = record {
  mutation_id = "mut-1";
  status = "acked";
  remote_skill_id = some "remote-1";
  revision = some (pos 1);
  conflict_head_revision = none;
  conflict_package_manifest_hash = none;
  error_code = none;
  message = none;
}

abbrev pub acked_applied : OutcomeApplied
acked_applied = record {
  mutation_state = MutationState.acked;
  skill_state = some SkillSyncState.synced;
}

abbrev pub synced : LocalSkill
synced = synced_skill (acked_skill acked_outcome (pos 1) first_skill)

abbrev pub acked_store : LocalStore
acked_store = record claimed_store {
  mutations = acked_mutation acked_outcome (pos 1) flying_row ∷ [];
  skills = synced ∷ [];
}

pub ack_run :
    apply_mutation_outcome 200 acked_outcome claimed_store ≡ ok (acked_applied, acked_store)
unfolding apply_mutation_outcome mutation_row apply_to_row apply_status apply_acked read_skill_state
    mutation_state_of
ack_run = refl

-- The server refuses the edit: its head has moved on.
abbrev pub conflict_outcome : MutationOutcome
conflict_outcome = record acked_outcome {
  status = "conflict";
  revision = none;
  conflict_head_revision = some (pos 4);
  conflict_package_manifest_hash = some "hash-4";
}

abbrev pub conflicted : LocalSkill
conflicted = refused_skill conflict_outcome SkillSyncState.conflict first_skill

abbrev pub conflicted_row : LocalMutation
conflicted_row = refused_mutation conflict_outcome MutationState.conflict flying_row

abbrev pub conflicted_store : LocalStore
conflicted_store = record claimed_store {
  mutations = conflicted_row ∷ [];
  skills = conflicted ∷ [];
}
