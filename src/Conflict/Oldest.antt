-- ===== src/Conflict/Oldest.antt =====
-- The conflicts to be listed, described apart from the query.
use skill_hive.Prelude.{
  ◌≤◌, ltb, ◌&&◌, String, eq_iff, arith, exists_where, exists_where-false, not_exists_where, ◌≡◌,
  refl, true, false, inl, inr, List, Memᴰ, Bool-cases,
}
use skill_hive.Store.{
  LocalSkill, LocalMutation, LocalStore, MutationState, SkillSyncState, is_conflict, is_conflicted,
}
use skill_hive.Conflict.Resolve.{ConflictRecord, is_conflict_of, is_chain_head, conflict_record}

-- The record shows the columns of the skill and of the mutation.
abbrev pub Shows : ConflictRecord → LocalSkill → LocalMutation → Type 0
Shows r k m =
    ((r.skill_id ≡ k.id)
      × (r.local_name ≡ k.name)
      × (r.local_slug ≡ k.slug)
      × (r.local_snapshot_hash ≡ k.current_blob_hash)
      × (r.remote_head_revision ≡ k.remote_revision)
      × (r.remote_package_manifest_hash ≡ k.remote_blob_hash))
    × ((r.local_base_revision ≡ m.base_revision)
        × (r.mutation_id ≡ m.id)
        × (r.mutation_operation ≡ m.operation))

-- The mutation is in conflict, and the oldest of its skill that is.
abbrev pub IsOldest : String → List LocalMutation → LocalMutation → Type 0
IsOldest skill_id table m =
    (m.skill_id ≡ skill_id)
    × (m.state ≡ MutationState.conflict)
    × ((e : LocalMutation)
        → Memᴰ e table
        → e.skill_id ≡ skill_id
        → e.state ≡ MutationState.conflict
        → m.local_sequence ≤ e.local_sequence)

-- A record of a skill in conflict and of its oldest mutation in conflict.
abbrev pub IsConflictOf : LocalStore → ConflictRecord → Type 0
IsConflictOf s r =
    (k : LocalSkill) × (m : LocalMutation) × Memᴰ k s.skills
    × Memᴰ m s.mutations
    × (k.sync_state ≡ SkillSyncState.conflict)
    × IsOldest k.id s.mutations m
    × Shows r k m

is_conflict-state :
    (state : MutationState) → is_conflict state ≡ true → state ≡ MutationState.conflict
is_conflict-state MutationState.conflict h = refl
is_conflict-state state h = cc

pub is_conflicted-state :
    (state : SkillSyncState) → is_conflicted state ≡ true → state ≡ SkillSyncState.conflict
is_conflicted-state SkillSyncState.conflict h = refl
is_conflicted-state state h = cc

pub head-IsOldest :
    (skill_id : String) (table : List LocalMutation) (m : LocalMutation)
    → is_chain_head skill_id table m ≡ true
    → IsOldest skill_id table m
head-IsOldest skill_id table m h =
    let older =
      λ (e : LocalMutation). is_conflict_of skill_id e && ltb e.local_sequence m.local_sequence in
    let no_older : exists_where older table ≡ false = ground arith in
    (
      (eq_iff m.skill_id skill_id).0 (ground arith),
      is_conflict-state m.state (ground arith),
      λ e inside same conflict.
          let younger : older e ≡ false = exists_where-false older table no_older inside in
          let own : is_conflict_of skill_id e ≡ true =
            rw ((eq_iff e.skill_id skill_id).1 same, conflict) refl in
          ground arith,
    )

pub oldest-head :
    (skill_id : String) (table : List LocalMutation) (m : LocalMutation)
    → IsOldest skill_id table m
    → is_chain_head skill_id table m ≡ true
oldest-head skill_id table m (same, conflict, least) =
    let older =
      λ (e : LocalMutation). is_conflict_of skill_id e && ltb e.local_sequence m.local_sequence in
    let no_older : exists_where older table ≡ false =
      not_exists_where older table (λ e inside. younger e inside) in
    rw ((eq_iff m.skill_id skill_id).1 same, conflict, no_older) refl
  where
    younger :
        (e : LocalMutation)
        → Memᴰ e table
        → (is_conflict_of skill_id e && ltb e.local_sequence m.local_sequence) ≡ false
    younger e inside = elim (Bool-cases (is_conflict_of skill_id e)) [
      | inl own ↦
          let le =
            least e inside ((eq_iff e.skill_id skill_id).0 (ground arith))
              (is_conflict-state e.state (ground arith)) in
          ground arith
      | inr other ↦ rw other refl
    ]

pub shown :
    (r : ConflictRecord) (k : LocalSkill) (m : LocalMutation)
    → Shows r k m
    → r ≡ conflict_record k m
shown r k m ((a, b, c, d, e, f), (g, h, i)) = rw (← a, ← b, ← c, ← d, ← e, ← f, ← g, ← h, ← i) refl
