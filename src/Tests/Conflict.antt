-- ===== src/Tests/Conflict.antt =====
-- Runs of the operations of conflicts.rs.
use skill_hive.Prelude.{
  String, ◌≡◌, ◌≢◌, ◌⊎◌, inr, refl, true, false, none, some, [], ◌∷◌, ◌++◌, Memᴰ, ◌==◌, find_where,
  update_where, ℤ, pos, leb_ℤ, List,
}
use skill_hive.Store.{
  LocalSkill, LocalMutation, LocalStore, MutationState, MutationOperation, SkillSyncState,
  is_conflict, is_conflicted, is_acked, ok,
}
use skill_hive.Outbox.{
  has_skill_id, pending_mutation, insert_mutation, next_local_sequence, next_sequence,
  is_dispatchable,
}
use skill_hive.Conflict.{
  ResolutionApplied, is_conflict_of, superseded_mutation, requeued_skill, adopted_skill,
  resolve_keep_local, resolve_keep_remote, read_skill_for_resolution, known_head, known_remote_hash,
  supersede_conflict_chain, ConflictRecord, list_conflicts,
}
use skill_hive.Conflict.Oldest.{IsConflictOf}
use skill_hive.Conflict.Listing.{conflicts_are_listed}
use skill_hive.Conflict.Local.{keep_local_effect, keep_local_dispatchable}
use skill_hive.Conflict.Remote.{keep_remote_effect}
use skill_hive.Tests.Fixtures.{conflicted, conflicted_row, conflicted_store}

abbrev kept_applied : ResolutionApplied
kept_applied = record { new_mutation_id = some "mut-2"; skill_state = SkillSyncState.dirty }

abbrev kept_row : LocalMutation
kept_row = pending_mutation "mut-2" "skill-1" 2 MutationOperation.update (some (pos 4)) "hash-1" 300

abbrev kept_store : LocalStore
kept_store = record conflicted_store {
  mutations = superseded_mutation conflicted_row ∷ kept_row ∷ [];
  skills = requeued_skill (pos 4) conflicted ∷ [];
}

keep_local_run :
    resolve_keep_local "mut-2" 300 "skill-1" true conflicted_store ≡ ok (kept_applied, kept_store)
unfolding resolve_keep_local read_skill_for_resolution known_head supersede_conflict_chain
    insert_mutation next_local_sequence next_sequence
keep_local_run = refl

keep_local_effect_example :
    (true ≡ true)
    × ((old : LocalSkill) × (new : LocalSkill) × (row : LocalMutation) × (find_where
            (has_skill_id "skill-1")
            conflicted_store.skills
          ≡ some old)
        × (is_conflicted old.sync_state ≡ true)
        × (find_where (has_skill_id "skill-1") kept_store.skills ≡ some new)
        × (new.sync_state ≡ SkillSyncState.dirty)
        × (new.current_blob_hash ≡ old.current_blob_hash)
        × (kept_store.mutations
            ≡ update_where (is_conflict_of "skill-1") superseded_mutation conflicted_store.mutations
              ++ (row ∷ []))
        × (row.id ≡ "mut-2")
        × (row.state ≡ MutationState.pending)
        × (row.payload_hash ≡ old.current_blob_hash)
        × (row.operation ≡ MutationOperation.update)
        × ((head : ℤ) × (row.base_revision ≡ some head) × (leb_ℤ (pos 1) head ≡ true)))
    × ((m : LocalMutation)
        → Memᴰ m kept_store.mutations
        → m.skill_id ≡ "skill-1"
        → is_conflict m.state ≡ false)
    × (kept_store.sync ≡ conflicted_store.sync)
keep_local_effect_example =
    keep_local_effect "mut-2" 300 "skill-1" true conflicted_store kept_store kept_applied
      keep_local_run

all_conflicted :
    (x : LocalMutation)
    → Memᴰ x conflicted_store.mutations
    → x.skill_id ≡ "skill-1"
    → (is_acked x.state ≡ true) ⊎ (is_conflict x.state ≡ true)
all_conflicted x (Memᴰ.head e) same = inr (rw e refl)
all_conflicted x (Memᴰ.tail rest) same = elim rest [ ]

keep_local_dispatchable_example :
    (row : LocalMutation) × Memᴰ row kept_store.mutations
    × (row.id ≡ "mut-2")
    × (is_dispatchable 300 kept_store.mutations row ≡ true)
keep_local_dispatchable_example =
    keep_local_dispatchable "mut-2" 300 "skill-1" true conflicted_store kept_store kept_applied 300
      keep_local_run all_conflicted

abbrev adopted_applied : ResolutionApplied
adopted_applied = record { new_mutation_id = none; skill_state = SkillSyncState.remote_only }

abbrev adopted_store : LocalStore
adopted_store = record conflicted_store {
  mutations = superseded_mutation conflicted_row ∷ [];
  skills = adopted_skill "hash-4" conflicted ∷ [];
}

keep_remote_run :
    resolve_keep_remote "skill-1" true conflicted_store ≡ ok (adopted_applied, adopted_store)
unfolding resolve_keep_remote read_skill_for_resolution known_remote_hash supersede_conflict_chain
keep_remote_run = refl

keep_remote_effect_example :
    (true ≡ true)
    × ((old : LocalSkill) × (new : LocalSkill) × (find_where
            (has_skill_id "skill-1")
            conflicted_store.skills
          ≡ some old)
        × (is_conflicted old.sync_state ≡ true)
        × (find_where (has_skill_id "skill-1") adopted_store.skills ≡ some new)
        × (new.sync_state ≡ SkillSyncState.remote_only)
        × (old.remote_blob_hash ≡ some new.current_blob_hash)
        × ((new.current_blob_hash == "") ≡ false))
    × (adopted_store.mutations
        ≡ update_where (is_conflict_of "skill-1") superseded_mutation conflicted_store.mutations)
    × ((m : LocalMutation)
        → Memᴰ m adopted_store.mutations
        → m.skill_id ≡ "skill-1"
        → is_conflict m.state ≡ false)
    × ((other : String)
        → other ≢ "skill-1"
        → find_where (has_skill_id other) adopted_store.skills
          ≡ find_where (has_skill_id other) conflicted_store.skills)
    × (adopted_store.sync ≡ conflicted_store.sync)
keep_remote_effect_example =
    keep_remote_effect "skill-1" true conflicted_store adopted_store adopted_applied keep_remote_run

conflicts_are_listed_example :
    (records : List ConflictRecord) × (list_conflicts conflicted_store ≡ ok records)
    × ((r : ConflictRecord) → Memᴰ r records → IsConflictOf conflicted_store r)
    × ((r : ConflictRecord) → IsConflictOf conflicted_store r → Memᴰ r records)
conflicts_are_listed_example = conflicts_are_listed conflicted_store
