-- ===== src/Outbox/Commit.antt =====
-- The edit side of mutations.rs: a local edit and its mutation in one transaction. The identifier
-- that `Uuid::new_v4` draws and the clock are arguments.
use skill_hive.Prelude.{
  ℕ, suc, String, Bool, false, not, ◌&&◌, ◌||◌, Option, none, some, List, [], ◌∷◌, ◌++◌, ◌==◌, ltb,
  nat_eq, if◌then◌else◌, ◌^◌, find_where, exists_where, update_where, coalesce, ℤ, is_negative,
}
use skill_hive.Store.{
  CommitSkillEdit, LocalSkill, LocalMutation, LocalStore, MutationState, MutationOperation,
  SkillSyncState, is_delete, Result, ok, err, database, non_utf8_path, invalid_input,
  skill_not_found, ◌>>=◌, ◌>>◌, reject_if, validate_non_empty,
}

abbrev pub is_negative? : Option ℤ → Bool
is_negative? none = false
is_negative? (some revision) = is_negative revision

unfoldable pub path_to_string : Option String → Result String
path_to_string none = err non_utf8_path
path_to_string (some text) = ok text

unfoldable pub validate_edit : CommitSkillEdit → Result String
validate_edit edit = do
  validate_non_empty "skill_id" edit.skill_id
  validate_non_empty "name" edit.name
  validate_non_empty "slug" edit.slug
  validate_non_empty "blob_hash" edit.blob_hash
  reject_if (not edit.workspace_path.is_absolute) (invalid_input "workspace_path must be absolute")
  path ← path_to_string edit.workspace_path.to_str
  reject_if (is_negative? edit.base_revision) (invalid_input "base_revision must not be negative")
  ok path

abbrev pub has_skill_id : String → LocalSkill → Bool
has_skill_id id skill = skill.id == id

abbrev pub is_text : Option String → String → Bool
is_text none text = false
is_text (some value) text = value == text

-- The UNIQUE constraint on `remote_id`: another row than `id` has this remote ID.
abbrev pub takes_remote_id : String → Option String → LocalSkill → Bool
takes_remote_id id none skill = false
takes_remote_id id (some remote_id) skill =
    not (skill.id == id) && is_text skill.remote_id remote_id

abbrev pub inserted_skill : CommitSkillEdit → String → LocalSkill
inserted_skill edit path = record {
  id = edit.skill_id;
  remote_id = edit.remote_id;
  name = edit.name;
  slug = edit.slug;
  workspace_path = path;
  current_blob_hash = edit.blob_hash;
  remote_blob_hash = none;
  remote_revision = edit.base_revision;
  sync_state = SkillSyncState.dirty;
  pinned = false;
}

-- The ON CONFLICT(id) DO UPDATE of `commit_skill_edit`.
abbrev pub edited_skill : CommitSkillEdit → String → LocalSkill → LocalSkill
edited_skill edit path skill = record skill {
  remote_id = coalesce edit.remote_id skill.remote_id;
  name = edit.name;
  slug = edit.slug;
  workspace_path = path;
  current_blob_hash = edit.blob_hash;
  remote_revision = coalesce edit.base_revision skill.remote_revision;
  sync_state = SkillSyncState.dirty;
}

unfoldable pub upsert_edited_skill :
    CommitSkillEdit → String → List LocalSkill → Result (List LocalSkill)
upsert_edited_skill edit path skills =
    if exists_where (takes_remote_id edit.skill_id edit.remote_id) skills
    then err database
    else if exists_where (has_skill_id edit.skill_id) skills
    then ok (update_where (has_skill_id edit.skill_id) (edited_skill edit path) skills)
    else ok (skills ++ (inserted_skill edit path ∷ []))

-- MAX(local_sequence) over the mutations of a skill, 0 if it has none.
abbrev pub max_sequence : String → List LocalMutation → ℕ
max_sequence skill_id [] = 0
max_sequence skill_id (m ∷ ms) =
    let rest = max_sequence skill_id ms in
    if m.skill_id == skill_id && ltb rest m.local_sequence then m.local_sequence else rest

unfoldable pub next_sequence : String → List LocalMutation → ℕ
next_sequence skill_id table = suc (max_sequence skill_id table)

-- A sum beyond the signed 64-bit integers is a REAL to SQLite, and is not read as an integer.
unfoldable pub next_local_sequence : String → List LocalMutation → Result ℕ
next_local_sequence skill_id table =
    if ltb (next_sequence skill_id table) (2 ^ 63)
    then ok (next_sequence skill_id table)
    else err database

-- A mutation as the INSERT statements write it; the other columns take their defaults.
abbrev pub pending_mutation :
    String → String → ℕ → MutationOperation → Option ℤ → String → ℕ → LocalMutation
pending_mutation id skill_id local_sequence operation base_revision payload_hash now = record {
  id = id;
  skill_id = skill_id;
  local_sequence = local_sequence;
  operation = operation;
  base_revision = base_revision;
  payload_hash = payload_hash;
  state = MutationState.pending;
  retry_count = 0;
  next_attempt_at = none;
  last_attempt_at = none;
  server_error_code = none;
  server_error_details = none;
  acknowledged_remote_revision = none;
  acknowledged_remote_id = none;
  last_error = none;
  created_at = now;
}

-- The PRIMARY KEY and the UNIQUE(skill_id, local_sequence) of `local_mutations`.
abbrev pub clashes : LocalMutation → LocalMutation → Bool
clashes row m =
    m.id == row.id || (m.skill_id == row.skill_id && nat_eq m.local_sequence row.local_sequence)

-- INSERT INTO local_mutations, under the table's constraints.
unfoldable pub insert_mutation : LocalMutation → LocalStore → Result LocalStore
insert_mutation row s =
    if exists_where (clashes row) s.mutations
      || not (exists_where (has_skill_id row.skill_id) s.skills)
      || is_negative? row.base_revision
    then err database
    else ok (record s { mutations = s.mutations ++ (row ∷ []) })

unfoldable pub commit_skill_edit :
    String → ℕ → CommitSkillEdit → LocalStore → Result (LocalMutation × LocalStore)
commit_skill_edit mutation_id now edit s = do
  path ← validate_edit edit
  reject_if (is_delete edit.operation)
      (invalid_input "delete mutations must use queue_skill_delete")
  skills ← upsert_edited_skill edit path s.skills
  local_sequence ← next_local_sequence edit.skill_id s.mutations
  let row =
      pending_mutation mutation_id edit.skill_id local_sequence edit.operation edit.base_revision
        edit.blob_hash now
  written ← insert_mutation row (record s { skills = skills })
  ok (row, written)

abbrev pub found_or_missing : String → Option LocalSkill → Result LocalSkill
found_or_missing skill_id none = err (skill_not_found skill_id)
found_or_missing skill_id (some skill) = ok skill

abbrev pub dirtied : LocalSkill → LocalSkill
dirtied skill = record skill { sync_state = SkillSyncState.dirty }

unfoldable pub queue_skill_delete :
    String → ℕ → String → Option ℤ → LocalStore → Result (LocalMutation × LocalStore)
queue_skill_delete mutation_id now skill_id base_revision s = do
  validate_non_empty "skill_id" skill_id
  reject_if (is_negative? base_revision) (invalid_input "base_revision must not be negative")
  skill ← found_or_missing skill_id (find_where (has_skill_id skill_id) s.skills)
  local_sequence ← next_local_sequence skill_id s.mutations
  let row =
      pending_mutation mutation_id skill_id local_sequence MutationOperation.delete base_revision
        skill.current_blob_hash now
  let skills = update_where (has_skill_id skill_id) dirtied s.skills
  written ← insert_mutation row (record s { skills = skills })
  ok (row, written)
