-- ===== src/Outbox/Edits.antt =====
-- What a local edit leaves in the store.
use skill_hive.Prelude.{
  ℕ, ltb, ◌^◌, none, String, ◌≡◌, ◌≢◌, refl, sym, ap, ◌∙◌, true, false, inl, inr, some, List, [],
  ◌∷◌, ◌++◌, Memᴰ, arith, ◌==◌, eq_iff, eq_refl, Bool-cases, exists_where, find_where,
  exists_where-true, mem-append_right, find_where-some_exists, update_where, find_where-append_none,
  find_where-append_miss, find_where-update_hit, find_where-update_miss, find_where-exists,
  find_where-not_exists,
}
use skill_hive.Store.{
  CommitSkillEdit, LocalSkill, LocalMutation, LocalStore, SkillSyncState, MutationState, is_delete,
  ok, >>=-eq-ok, >>-eq-ok, ok_parts,
}
use skill_hive.Outbox.Dispatch.{has_id}
use skill_hive.Outbox.Commit.{
  has_skill_id, is_negative?, takes_remote_id, validate_edit, inserted_skill, edited_skill,
  upsert_edited_skill, next_sequence, pending_mutation, insert_mutation, commit_skill_edit,
}
use skill_hive.Outbox.Invariant.{IsOutbox}
use skill_hive.Outbox.Inserted.{
  insert_mutation-eq, insert_mutation-IsOutbox, insert_mutation_total, next_local_sequence-eq,
  next_local_sequence_fits, IsNext, next_sequence-IsNext,
}

module _ (mutation_id : String) (now : ℕ) (edit : CommitSkillEdit) (s : LocalStore) where
  -- The row that a commit writes.
  abbrev pub committed_row : LocalMutation
  committed_row =
      pending_mutation mutation_id edit.skill_id (next_sequence edit.skill_id s.mutations)
        edit.operation edit.base_revision edit.blob_hash now

  -- A commit that succeeded, taken apart.
  abbrev pub Commit : LocalMutation → LocalStore → Type 0
  Commit row t =
      (path : String) × (skills : List LocalSkill) × (validate_edit edit ≡ ok path)
      × (upsert_edited_skill edit path s.skills ≡ ok skills)
      × (insert_mutation committed_row (record s { skills = skills }) ≡ ok t)
      × (row ≡ committed_row)

  pub commit_skill_edit-Commit :
      (row : LocalMutation) (t : LocalStore)
      → commit_skill_edit mutation_id now edit s ≡ ok (row, t)
      → Commit row t
  unfolding commit_skill_edit
  commit_skill_edit-Commit row t h =
      let (path, valid, h1) = >>=-eq-ok _ _ h in
      let h2 = >>-eq-ok _ _ h1 in
      let (skills, upserted, h3) = >>=-eq-ok _ _ h2 in
      let (n, numbered, h3) = >>=-eq-ok _ _ h3 in
      let same = next_local_sequence-eq edit.skill_id s.mutations n numbered in
      let (written, inserted, h4) = >>=-eq-ok _ _ h3 in
      let (er, et) = ok_parts h4 in
      rw (← same) (path, skills, valid, upserted, inserted ∙ ap ok et, sym er)

  -- A commit keeps the invariant of the outbox.
  pub commit-IsOutbox :
      (row : LocalMutation) (t : LocalStore)
      → commit_skill_edit mutation_id now edit s ≡ ok (row, t)
      → IsOutbox s.mutations
      → IsOutbox t.mutations
  commit-IsOutbox row t h box =
      let (path, skills, valid, upserted, inserted, er) = commit_skill_edit-Commit row t h in
      insert_mutation-IsOutbox committed_row (record s { skills = skills }) t inserted box refl refl

  upserted_lookup :
      (path : String) (skills : List LocalSkill)
      → upsert_edited_skill edit path s.skills ≡ ok skills
      → (skill : LocalSkill) × (find_where (has_skill_id edit.skill_id) skills ≡ some skill)
        × (skill.current_blob_hash ≡ edit.blob_hash)
        × (skill.sync_state ≡ SkillSyncState.dirty)
  unfolding upsert_edited_skill
  upserted_lookup path skills h =
      let hit = has_skill_id edit.skill_id in
      elim (Bool-cases (exists_where hit s.skills)) [
        | inl old ↦
            let e : skills ≡ update_where hit (edited_skill edit path) s.skills = ground arith in
            let (k, found) = find_where-exists hit s.skills old in
            (
              edited_skill edit path k,
              rw e (
                  find_where-update_hit hit (edited_skill edit path) s.skills k
                    (λ x. ground (arith)) found),
              refl,
              refl,
            )
        | inr new ↦
            let e : skills ≡ s.skills ++ (inserted_skill edit path ∷ []) = ground arith in
            (
              inserted_skill edit path,
              rw e (
                  find_where-append_none hit s.skills (inserted_skill edit path ∷ [])
                    (find_where-not_exists hit s.skills new)
                  ∙ rw eq_refl refl),
              refl,
              refl,
            )
      ]

  upserted_others :
      (path : String) (skills : List LocalSkill)
      → upsert_edited_skill edit path s.skills ≡ ok skills
      → (other : String) → other ≢ edit.skill_id
      → find_where (has_skill_id other) skills ≡ find_where (has_skill_id other) s.skills
  unfolding upsert_edited_skill
  upserted_others path skills h other apart =
      let hit = has_skill_id edit.skill_id in
      let differ : (edit.skill_id == other) ≡ false = ground (arith, eq_iff edit.skill_id other) in
      elim (Bool-cases (exists_where hit s.skills)) [
        | inl old ↦
            let e : skills ≡ update_where hit (edited_skill edit path) s.skills = ground arith in
            rw e (
              find_where-update_miss (has_skill_id other) (edited_skill edit path) hit s.skills
                (λ x. refl) (λ x g. ground (arith, eq_iff x.id other, eq_iff x.id edit.skill_id)))
        | inr new ↦
            let e : skills ≡ s.skills ++ (inserted_skill edit path ∷ []) = ground arith in
            rw e (
              find_where-append_miss (has_skill_id other) s.skills (inserted_skill edit path)
                differ)
      ]

  upserted_total :
      (path : String)
      → exists_where (takes_remote_id edit.skill_id edit.remote_id) s.skills ≡ false
      → (skills : List LocalSkill) × (upsert_edited_skill edit path s.skills ≡ ok skills)
        × (exists_where (has_skill_id edit.skill_id) skills ≡ true)
  unfolding upsert_edited_skill
  upserted_total path unique =
      let hit = has_skill_id edit.skill_id in
      elim (Bool-cases (exists_where hit s.skills)) [
        | inl old ↦ (
          update_where hit (edited_skill edit path) s.skills,
          rw (unique, old) refl,
          let (k, found) = find_where-exists hit s.skills old in
              find_where-some_exists hit (update_where hit (edited_skill edit path) s.skills)
                (edited_skill edit path k)
                (find_where-update_hit hit (edited_skill edit path) s.skills k (λ x. refl) found),
        )
        | inr new ↦ (
          s.skills ++ (inserted_skill edit path ∷ []),
          rw (unique, new) refl,
          exists_where-true hit (s.skills ++ (inserted_skill edit path ∷ []))
              (mem-append_right s.skills (inserted_skill edit path ∷ []) (Memᴰ.head refl))
              eq_refl_id,
        )
      ]
    where
      eq_refl_id : (edit.skill_id == edit.skill_id) ≡ true
      eq_refl_id = rw eq_refl refl

valid-not-negative :
    (edit : CommitSkillEdit) (path : String)
    → validate_edit edit ≡ ok path
    → is_negative? edit.base_revision ≡ false
unfolding validate_edit
valid-not-negative edit path h = ground arith

-- The row is a mutation of the skill that no dispatch has seen.
abbrev pub IsFresh : String → LocalMutation → Type 0
IsFresh skill_id row =
    (row.skill_id ≡ skill_id)
    × (row.state ≡ MutationState.pending)
    × (row.retry_count ≡ 0)
    × (row.next_attempt_at ≡ none)

-- A commit that succeeds appends exactly one mutation to the outbox. It belongs to the skill of the
-- edit, is pending, never retried and free to go, and has the drawn identifier and the operation, the
-- base revision and the hash of the edit. Its sequence number is above those of the skill, by one above
-- the greatest, or 1. The skill becomes dirty with the hash of the edit, every other skill is as it was,
-- and the cursor and the account scope are untouched.
pub commit_effect :
    (mutation_id : String) (now : ℕ) (edit : CommitSkillEdit) (s : LocalStore) (row : LocalMutation)
    (t : LocalStore)
    → commit_skill_edit mutation_id now edit s ≡ ok (row, t)
    → (t.mutations ≡ s.mutations ++ (row ∷ []))
      × IsFresh edit.skill_id row
      × IsNext edit.skill_id s.mutations row.local_sequence
      × ((row.id ≡ mutation_id)
          × (row.operation ≡ edit.operation)
          × (row.base_revision ≡ edit.base_revision)
          × (row.payload_hash ≡ edit.blob_hash))
      × ((skill : LocalSkill) × (find_where (has_skill_id edit.skill_id) t.skills ≡ some skill)
          × (skill.current_blob_hash ≡ edit.blob_hash)
          × (skill.sync_state ≡ SkillSyncState.dirty))
      × ((other : String)
          → other ≢ edit.skill_id
          → find_where (has_skill_id other) t.skills ≡ find_where (has_skill_id other) s.skills)
      × (t.sync ≡ s.sync)
commit_effect mutation_id now edit s row t h =
    let (path, skills, valid, upserted, inserted, er) =
      commit_skill_edit-Commit mutation_id now edit s row t h in
    let e : t ≡ record s {
      skills = skills;
      mutations = s.mutations ++ (committed_row mutation_id now edit s ∷ []);
    } =
      insert_mutation-eq (committed_row mutation_id now edit s) (record s { skills = skills }) t
        inserted in
    rw (e, er)
      (
        refl,
        (refl, refl, refl, refl),
        next_sequence-IsNext edit.skill_id s.mutations,
        (refl, refl, refl, refl),
        upserted_lookup mutation_id now edit s path skills upserted,
        upserted_others mutation_id now edit s path skills upserted,
        refl,
      )

-- A commit succeeds whenever the edit passes validation and is no deletion, its remote ID belongs
-- to no other skill, the drawn identifier is fresh, and the next sequence number of the skill fits a
-- signed 64-bit integer.
pub commit_total :
    (mutation_id : String) (now : ℕ) (edit : CommitSkillEdit) (s : LocalStore) (path : String)
    → validate_edit edit ≡ ok path
    → is_delete edit.operation ≡ false
    → exists_where (takes_remote_id edit.skill_id edit.remote_id) s.skills ≡ false
    → exists_where (has_id mutation_id) s.mutations ≡ false
    → ltb (next_sequence edit.skill_id s.mutations) (2 ^ 63) ≡ true
    → (t : LocalStore) × (commit_skill_edit mutation_id now edit s
        ≡ ok (committed_row mutation_id now edit s, t))
unfolding commit_skill_edit
commit_total mutation_id now edit s path valid keeps unique fresh fits =
    let (skills, upserted, known) = upserted_total mutation_id now edit s path unique in
    let inserted =
      insert_mutation_total (committed_row mutation_id now edit s) (record s { skills = skills })
        fresh refl known (valid-not-negative edit path valid) in
    (
      record s {
        skills = skills;
        mutations = s.mutations ++ (committed_row mutation_id now edit s ∷ []);
      },
      rw (valid, keeps, upserted, next_local_sequence_fits edit.skill_id s.mutations fits, inserted)
          refl,
    )
