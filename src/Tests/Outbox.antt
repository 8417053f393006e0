-- ===== src/Tests/Outbox.antt =====
-- Runs of the operations of mutations.rs.
use skill_hive.Prelude.{
  ℕ, ◌≡◌, ◌≢◌, ◌↔◌, refl, String, true, false, none, some, [], ◌∷◌, ◌++◌, ◌^◌, ◌-◌, map, Memᴰ,
  find_where,
}
use skill_hive.Store.{
  err, database, LocalSkill, LocalMutation, LocalStore, MutationOperation, MutationState,
  DeploymentState, SkillSyncState, is_in_flight, ok, validate_non_empty,
}
use skill_hive.Store.Names.SyncState
use skill_hive.Store.Names.Operation
use skill_hive.Store.Names.Mutation
use skill_hive.Store.Names.Deployment
use skill_hive.Store.Names.Columns.{column_texts}
use skill_hive.Outbox.{
  commit_skill_edit, has_skill_id, dirtied, queue_skill_delete, insert_mutation,
  next_local_sequence, next_sequence, pending_mutation, recover_in_flight_mutations, recovered,
  is_dispatchable,
}
use skill_hive.Outbox.Claimed.{claim_dispatchable-IsOutbox, claim_one_per_skill}
use skill_hive.Outbox.Edits.{IsFresh, commit_effect, commit_total, committed_row}
use skill_hive.Outbox.Inserted.{IsNext}
use skill_hive.Outbox.Deletions.{queue_delete_effect}
use skill_hive.Outbox.Recovery.{recover_keeps_ids, recover_dispatchable}
use skill_hive.Tests.Fixtures.{
  first_edit, first_edit_valid, first_row, fresh_store, edited_store, edit_run, flying_row,
  claimed_store, claim_run, edited-IsOutbox,
}

claim_one_per_skill_example : flying_row ≡ flying_row
claim_one_per_skill_example =
    claim_one_per_skill 110 10 edited_store (flying_row ∷ []) claimed_store claim_run
      edited-IsOutbox flying_row flying_row (Memᴰ.head refl) (Memᴰ.head refl) refl

commit_effect_example :
    (edited_store.mutations ≡ [] ++ (first_row ∷ []))
    × IsFresh "skill-1" first_row
    × IsNext "skill-1" [] 1
    × ((first_row.id ≡ "mut-1")
        × (first_row.operation ≡ first_edit.operation)
        × (first_row.base_revision ≡ first_edit.base_revision)
        × (first_row.payload_hash ≡ "hash-1"))
    × ((skill : LocalSkill) × (find_where (has_skill_id "skill-1") edited_store.skills ≡ some skill)
        × (skill.current_blob_hash ≡ "hash-1")
        × (skill.sync_state ≡ SkillSyncState.dirty))
    × ((other : String)
        → other ≢ "skill-1"
        → find_where (has_skill_id other) edited_store.skills
          ≡ find_where (has_skill_id other) fresh_store.skills)
    × (edited_store.sync ≡ fresh_store.sync)
commit_effect_example =
    commit_effect "mut-1" 100 first_edit fresh_store first_row edited_store edit_run

commit_total_example :
    (t : LocalStore) × (commit_skill_edit "mut-1" 100 first_edit fresh_store
      ≡ ok (committed_row "mut-1" 100 first_edit fresh_store, t))
unfolding next_sequence
commit_total_example =
    commit_total "mut-1" 100 first_edit fresh_store "/work/notes" first_edit_valid refl refl refl
      refl

-- A skill whose mutations have used up the sequence numbers.
used_up :
    next_local_sequence "skill-1" (record first_row { local_sequence = 2 ^ 63 - 1 } ∷ [])
    ≡ err database
unfolding next_local_sequence next_sequence
used_up = refl

abbrev deletion_row : LocalMutation
deletion_row = pending_mutation "mut-2" "skill-1" 2 MutationOperation.delete none "hash-1" 120

abbrev deleted_store : LocalStore
deleted_store = record edited_store { mutations = first_row ∷ deletion_row ∷ [] }

delete_run :
    queue_skill_delete "mut-2" 120 "skill-1" none edited_store ≡ ok (deletion_row, deleted_store)
unfolding queue_skill_delete validate_non_empty insert_mutation next_local_sequence next_sequence
delete_run = refl

queue_delete_effect_example :
    (skill : LocalSkill) × (find_where (has_skill_id "skill-1") edited_store.skills ≡ some skill)
    × (find_where (has_skill_id "skill-1") deleted_store.skills ≡ some (dirtied skill))
    × (deleted_store.mutations ≡ edited_store.mutations ++ (deletion_row ∷ []))
    × IsFresh "skill-1" deletion_row
    × IsNext "skill-1" edited_store.mutations 2
    × ((deletion_row.id ≡ "mut-2")
        × (deletion_row.operation ≡ MutationOperation.delete)
        × (deletion_row.base_revision ≡ none)
        × (deletion_row.payload_hash ≡ skill.current_blob_hash))
    × ((other : String)
        → other ≢ "skill-1"
        → find_where (has_skill_id other) deleted_store.skills
          ≡ find_where (has_skill_id other) edited_store.skills)
    × (deleted_store.sync ≡ edited_store.sync)
queue_delete_effect_example =
    queue_delete_effect "mut-2" 120 "skill-1" none edited_store deletion_row deleted_store
      delete_run

recover_keeps_ids_example :
    (n : ℕ) × (t : LocalStore) × (recover_in_flight_mutations claimed_store ≡ ok (n, t))
    × (map (λ (m : LocalMutation). m.id) t.mutations
        ≡ map (λ (m : LocalMutation). m.id) claimed_store.mutations)
    × ((m : LocalMutation) → Memᴰ m t.mutations → is_in_flight m.state ≡ false)
    × ((m : LocalMutation)
        → Memᴰ m claimed_store.mutations
        → is_in_flight m.state ≡ false
        → Memᴰ m t.mutations)
recover_keeps_ids_example = recover_keeps_ids claimed_store

abbrev recovered_store : LocalStore
recovered_store = record claimed_store { mutations = recovered flying_row ∷ [] }

recover_run : recover_in_flight_mutations claimed_store ≡ ok (1, recovered_store)
unfolding recover_in_flight_mutations
recover_run = refl

recover_dispatchable_example :
    Memᴰ (recovered flying_row) recovered_store.mutations
    × (is_dispatchable 130 recovered_store.mutations (recovered flying_row) ≡ true)
recover_dispatchable_example =
    recover_dispatchable claimed_store 1 recovered_store recover_run
      (claim_dispatchable-IsOutbox 110 10 edited_store (flying_row ∷ []) claimed_store claim_run
        edited-IsOutbox)
      flying_row 130 (Memᴰ.head refl) refl

column_texts_example :
    ((x : SkillSyncState)
      → (SyncState.from_db_str "conflict" ≡ ok x) ↔ ("conflict" ≡ SyncState.as_db_str x))
    × ((x : MutationOperation)
        → (Operation.from_db_str "conflict" ≡ ok x) ↔ ("conflict" ≡ Operation.as_db_str x))
    × ((x : MutationState)
        → (Mutation.from_db_str "conflict" ≡ ok x) ↔ ("conflict" ≡ Mutation.as_db_str x))
    × ((x : DeploymentState)
        → (Deployment.from_db_str "conflict" ≡ ok x) ↔ ("conflict" ≡ Deployment.as_db_str x))
column_texts_example = column_texts "conflict"
