-- ===== src/Outbox/Deletions.antt =====
-- What a local deletion leaves in the store.
use skill_hive.Prelude.{
  ℕ, String, ◌≡◌, ◌≢◌, arith, eq_iff, find_where-update_miss, refl, sym, ap, ◌∙◌, Option, none,
  some, [], ◌∷◌, ◌++◌, find_where, update_where, find_where-update_hit, ℤ,
}
use skill_hive.Store.{
  LocalSkill, LocalMutation, LocalStore, MutationOperation, ok, >>=-eq-ok, >>-eq-ok, ok_parts,
  ok-injective,
}
use skill_hive.Outbox.Commit.{
  has_skill_id, next_sequence, pending_mutation, insert_mutation, dirtied, found_or_missing,
  queue_skill_delete,
}
use skill_hive.Outbox.Invariant.{IsOutbox}
use skill_hive.Outbox.Inserted.{
  insert_mutation-eq, insert_mutation-IsOutbox, next_local_sequence-eq, IsNext,
  next_sequence-IsNext,
}
use skill_hive.Outbox.Edits.{IsFresh}

module _ (mutation_id : String) (now : ℕ) (skill_id : String) (base_revision : Option ℤ)
    (s : LocalStore) where
  abbrev pub Deletion : LocalMutation → LocalStore → Type 0
  Deletion row t =
      (skill : LocalSkill) × (find_where (has_skill_id skill_id) s.skills ≡ some skill)
      × (row
          ≡ pending_mutation mutation_id skill_id (next_sequence skill_id s.mutations)
              MutationOperation.delete base_revision skill.current_blob_hash now)
      × (insert_mutation row
            (record s { skills = update_where (has_skill_id skill_id) dirtied s.skills })
          ≡ ok t)

  found_or_missing-some :
      (o : Option LocalSkill) (skill : LocalSkill)
      → found_or_missing skill_id o ≡ ok skill
      → o ≡ some skill
  found_or_missing-some none skill h = cc
  found_or_missing-some (some k) skill h = ap some (ok-injective h)

  pub queue_skill_delete-Deletion :
      (row : LocalMutation) (t : LocalStore)
      → queue_skill_delete mutation_id now skill_id base_revision s ≡ ok (row, t)
      → Deletion row t
  unfolding queue_skill_delete
  queue_skill_delete-Deletion row t h =
      let h1 = >>-eq-ok _ _ h in
      let h2 = >>-eq-ok _ _ h1 in
      let (skill, found, h3) = >>=-eq-ok _ _ h2 in
      let (n, numbered, h3) = >>=-eq-ok _ _ h3 in
      let same = next_local_sequence-eq skill_id s.mutations n numbered in
      let (written, inserted, h4) = >>=-eq-ok _ _ h3 in
      let (er, et) = ok_parts h4 in
      (
        skill,
        found_or_missing-some _ _ found,
        sym er
            ∙ ap
                (λ sequence.
                  pending_mutation mutation_id skill_id sequence MutationOperation.delete
                    base_revision skill.current_blob_hash now)
                same,
        rw (← er) (inserted ∙ ap ok et),
      )

  -- Queuing a deletion keeps the invariant of the outbox.
  pub queue_delete-IsOutbox :
      (row : LocalMutation) (t : LocalStore)
      → queue_skill_delete mutation_id now skill_id base_revision s ≡ ok (row, t)
      → IsOutbox s.mutations
      → IsOutbox t.mutations
  queue_delete-IsOutbox row t h box =
      let (skill, found, er, inserted) = queue_skill_delete-Deletion row t h in
      insert_mutation-IsOutbox row
        (record s { skills = update_where (has_skill_id skill_id) dirtied s.skills }) t inserted box
        (rw er refl) (rw er refl)

-- A deletion that succeeds removes nothing: the skill is still found, dirty and otherwise as it was, and
-- every other skill is as it was. The outbox gains exactly one mutation: a delete of the skill, pending,
-- never retried and free to go, with the drawn identifier, the given base revision and the hash of the
-- skill. Its sequence number is above those of the skill, by one above the greatest, or 1. The cursor and
-- the account scope are untouched.
pub queue_delete_effect :
    (mutation_id : String) (now : ℕ) (skill_id : String) (base_revision : Option ℤ) (s : LocalStore)
    (row : LocalMutation) (t : LocalStore)
    → queue_skill_delete mutation_id now skill_id base_revision s ≡ ok (row, t)
    → (skill : LocalSkill) × (find_where (has_skill_id skill_id) s.skills ≡ some skill)
      × (find_where (has_skill_id skill_id) t.skills ≡ some (dirtied skill))
      × (t.mutations ≡ s.mutations ++ (row ∷ []))
      × IsFresh skill_id row
      × IsNext skill_id s.mutations row.local_sequence
      × ((row.id ≡ mutation_id)
          × (row.operation ≡ MutationOperation.delete)
          × (row.base_revision ≡ base_revision)
          × (row.payload_hash ≡ skill.current_blob_hash))
      × ((other : String)
          → other ≢ skill_id
          → find_where (has_skill_id other) t.skills ≡ find_where (has_skill_id other) s.skills)
      × (t.sync ≡ s.sync)
queue_delete_effect mutation_id now skill_id base_revision s row t h =
    let (skill, found, er, inserted) =
      queue_skill_delete-Deletion mutation_id now skill_id base_revision s row t h in
    let e =
      insert_mutation-eq row
        (record s { skills = update_where (has_skill_id skill_id) dirtied s.skills }) t inserted in
    (
      skill,
      found,
      rw e (find_where-update_hit (has_skill_id skill_id) dirtied s.skills skill (λ x. refl) found),
      rw e refl,
      rw er (refl, refl, refl, refl),
      rw er (next_sequence-IsNext skill_id s.mutations),
      rw er (refl, refl, refl, refl),
      (λ other apart. rw e (
          find_where-update_miss (has_skill_id other) dirtied (has_skill_id skill_id) s.skills
            (λ x. refl) (λ x g. ground (arith, eq_iff x.id other, eq_iff x.id skill_id)))),
      rw e refl,
    )
