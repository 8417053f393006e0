-- ===== src/Conflict/Resolve.antt =====
-- The operations of conflicts.rs. The identifier that `Uuid::new_v4` draws and the clock are
-- arguments.
use Prim.Native.Nat.{Ordering}
use Prim.Native.String.{compare}
use skill_hive.Prelude.{
  ℕ, ltb, String, ◌<>◌, Bool, true, false, not, ◌&&◌, Option, none, some, List, [], ◌∷◌, ◌++◌, ◌==◌,
  if◌then◌else◌, find_where, exists_where, update_where, ℤ, pos, max_ℤ,
}
use skill_hive.Store.{
  LocalSkill, LocalMutation, LocalStore, MutationState, MutationOperation, SkillSyncState,
  LocalStoreError, is_conflict, is_conflicted, Result, ok, err, invalid_input, ◌>>=◌, ◌>>◌,
  reject_if,
}
use skill_hive.Store.Names.SyncState.{as_db_str}
use skill_hive.Outbox.{
  has_skill_id, found_or_missing, pending_mutation, next_local_sequence, insert_mutation,
}

pub record ConflictRecord : Type 0 where
  pub skill_id : String
  pub local_name : String
  pub local_slug : String
  pub local_snapshot_hash : String
  pub local_base_revision : Option ℤ
  pub remote_head_revision : Option ℤ
  pub remote_package_manifest_hash : Option String
  pub mutation_id : String
  pub mutation_operation : MutationOperation

pub record ResolutionApplied : Type 0 where
  pub new_mutation_id : Option String
  pub skill_state : SkillSyncState

abbrev pub is_conflict_of : String → LocalMutation → Bool
is_conflict_of skill_id m = m.skill_id == skill_id && is_conflict m.state

-- `m` has the least sequence number among the mutations of the skill that are in conflict.
abbrev pub is_chain_head : String → List LocalMutation → LocalMutation → Bool
is_chain_head skill_id table m =
    is_conflict_of skill_id m
    && not (
        exists_where (λ e. is_conflict_of skill_id e && ltb e.local_sequence m.local_sequence)
          table)

abbrev pub conflict_record : LocalSkill → LocalMutation → ConflictRecord
conflict_record skill m = record {
  skill_id = skill.id;
  local_name = skill.name;
  local_slug = skill.slug;
  local_snapshot_hash = skill.current_blob_hash;
  local_base_revision = m.base_revision;
  remote_head_revision = skill.remote_revision;
  remote_package_manifest_hash = skill.remote_blob_hash;
  mutation_id = m.id;
  mutation_operation = m.operation;
}

-- The conflicts of one skill, as the join of `list_conflicts` finds them.
abbrev pub conflicts_of : LocalSkill → List LocalMutation → List LocalMutation → List ConflictRecord
conflicts_of skill table [] = []
conflicts_of skill table (m ∷ ms) =
    let rest = conflicts_of skill table ms in
    if is_chain_head skill.id table m then conflict_record skill m ∷ rest else rest

-- The rows of `list_conflicts`, before ORDER BY s.id ASC.
abbrev pub conflict_rows : List LocalMutation → List LocalSkill → List ConflictRecord
conflict_rows table [] = []
conflict_rows table (skill ∷ skills) =
    let rest = conflict_rows table skills in
    if is_conflicted skill.sync_state then conflicts_of skill table table ++ rest else rest

abbrev pub id_leb : ConflictRecord → ConflictRecord → Bool
id_leb a b = elim (compare a.skill_id b.skill_id) [ Ordering.gt ↦ false | _ ↦ true ]

-- ORDER BY s.id ASC
abbrev pub insert_record : ConflictRecord → List ConflictRecord → List ConflictRecord
insert_record record_ [] = record_ ∷ []
insert_record record_ (x ∷ xs) =
    let later = x ∷ insert_record record_ xs in if id_leb record_ x then record_ ∷ x ∷ xs else later

unfoldable pub order_records : List ConflictRecord → List ConflictRecord
order_records [] = []
order_records (x ∷ xs) = insert_record x (order_records xs)

unfoldable pub list_conflicts : LocalStore → Result (List ConflictRecord)
list_conflicts s = ok (order_records (conflict_rows s.mutations s.skills))

-- The row of the skill carries the columns of `SkillForResolution`.
unfoldable pub read_skill_for_resolution : String → LocalStore → Result LocalSkill
unfolding as_db_str
read_skill_for_resolution skill_id s = do
  skill ← found_or_missing skill_id (find_where (has_skill_id skill_id) s.skills)
  reject_if (not (is_conflicted skill.sync_state)) (
      invalid_input (
        "skill " <> skill_id <> " is not conflicted (state: " <> as_db_str skill.sync_state <> ")"))
  ok skill

abbrev pub superseded_mutation : LocalMutation → LocalMutation
superseded_mutation m = record m {
  state = MutationState.acked;
  next_attempt_at = none;
  server_error_code = some "CONFLICT_RESOLVED";
  last_error = some "superseded by an explicit conflict resolution";
}

unfoldable pub supersede_conflict_chain : String → LocalStore → LocalStore
supersede_conflict_chain skill_id s = record s {
  mutations = update_where (is_conflict_of skill_id) superseded_mutation s.mutations;
}

-- `remote_revision.ok_or_else(…)?.max(1)`
unfoldable pub known_head : String → LocalSkill → Result ℤ
known_head skill_id skill = elim skill.remote_revision [
  | none ↦
      err (invalid_input ("cannot keep local for " <> skill_id <> ": remote head revision unknown"))
  | some revision ↦ ok (max_ℤ revision (pos 1))
]

abbrev pub requeued_skill : ℤ → LocalSkill → LocalSkill
requeued_skill head skill = record skill {
  sync_state = SkillSyncState.dirty;
  remote_revision = some head;
}

unfoldable pub resolve_keep_local :
    String → ℕ → String → Bool → LocalStore → Result (ResolutionApplied × LocalStore)
resolve_keep_local mutation_id now skill_id confirmed s = do
  reject_if (not confirmed)
      (invalid_input "keep-local resolution requires explicit user confirmation")
  skill ← read_skill_for_resolution skill_id s
  head ← known_head skill_id skill
  let retired = supersede_conflict_chain skill_id s
  local_sequence ← next_local_sequence skill_id retired.mutations
  let row =
      pending_mutation mutation_id skill_id local_sequence MutationOperation.update (some head)
        skill.current_blob_hash now
  written ← insert_mutation row retired
  ok (
    record { new_mutation_id = some mutation_id; skill_state = SkillSyncState.dirty },
    record written {
      skills = update_where (has_skill_id skill_id) (requeued_skill head) written.skills;
    },
  )

-- `remote_blob_hash.filter(|hash| !hash.is_empty()).ok_or_else(…)`
unfoldable pub known_remote_hash : String → LocalSkill → Result String
known_remote_hash skill_id skill = elim skill.remote_blob_hash [
  | none ↦ err (unknown skill_id)
  | some hash ↦ if hash == "" then err (unknown skill_id) else ok hash
]
  where
    unknown : String → LocalStoreError
    unknown id = invalid_input (
        "cannot keep remote for " <> id
        <> ": remote package hash unknown; pull the remote head first")

abbrev pub adopted_skill : String → LocalSkill → LocalSkill
adopted_skill hash skill = record skill {
  current_blob_hash = hash;
  remote_blob_hash = none;
  sync_state = SkillSyncState.remote_only;
}

unfoldable pub resolve_keep_remote :
    String → Bool → LocalStore → Result (ResolutionApplied × LocalStore)
resolve_keep_remote skill_id confirmed s = do
  reject_if (not confirmed)
      (invalid_input "keep-remote resolution requires explicit user confirmation")
  skill ← read_skill_for_resolution skill_id s
  hash ← known_remote_hash skill_id skill
  let retired = supersede_conflict_chain skill_id s
  ok (
    record { new_mutation_id = none; skill_state = SkillSyncState.remote_only },
    record retired {
      skills = update_where (has_skill_id skill_id) (adopted_skill hash) retired.skills;
    },
  )
