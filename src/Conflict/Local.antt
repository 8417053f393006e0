-- ===== src/Conflict/Local.antt =====
-- What keep-local queues.
use skill_hive.Prelude.{
  ℕ, String, ◌≡◌, refl, sym, ap, ◌∙◌, Bool, true, false, ◌⊎◌, inl, inr, some, [], ◌∷◌, ◌++◌, Memᴰ,
  arith, ◌==◌, eq_iff, Bool-cases, find_where, exists_where, update_where, update_where-mem,
  updated, find_where-update_hit, mem-append_cases, mem-append_right, mem-singleton,
  not_exists_where, ℤ, pos, leb_ℤ,
}
use skill_hive.Store.{
  LocalSkill, LocalMutation, LocalStore, MutationState, MutationOperation, SkillSyncState, is_acked,
  is_conflict, is_conflicted, ok,
}
use skill_hive.Outbox.{has_skill_id, is_dispatchable, blocks}
use skill_hive.Conflict.Resolve.{
  ResolutionApplied, is_conflict_of, superseded_mutation, known_head, requeued_skill,
  resolve_keep_local,
}
use skill_hive.Conflict.Keeps.{
  superseded_none, read_conflicted, requeued_row, resolve_keep_local-KeptLocal, keep_local_tables,
}

positive_head :
    (skill_id : String) (skill : LocalSkill) (head : ℤ)
    → known_head skill_id skill ≡ ok head
    → leb_ℤ (pos 1) head ≡ true
unfolding known_head
positive_head skill_id skill head h = ground arith

-- A keep-local resolution that succeeds was confirmed, for a skill in conflict. It appends one
-- pending update of the local snapshot to the outbox, against a base revision of 1 or more, leaves
-- no other mutation of the skill in conflict, and makes the skill dirty with the snapshot it had.
-- The cursor and the account scope are untouched.
pub keep_local_effect :
    (mutation_id : String) (now : ℕ) (skill_id : String) (confirmed : Bool) (s t : LocalStore)
    (applied : ResolutionApplied)
    → resolve_keep_local mutation_id now skill_id confirmed s ≡ ok (applied, t)
    → (confirmed ≡ true)
      × ((old : LocalSkill) × (new : LocalSkill) × (row : LocalMutation) × (find_where
              (has_skill_id skill_id)
              s.skills
            ≡ some old)
          × (is_conflicted old.sync_state ≡ true)
          × (find_where (has_skill_id skill_id) t.skills ≡ some new)
          × (new.sync_state ≡ SkillSyncState.dirty)
          × (new.current_blob_hash ≡ old.current_blob_hash)
          × (t.mutations
              ≡ update_where (is_conflict_of skill_id) superseded_mutation s.mutations
                ++ (row ∷ []))
          × (row.id ≡ mutation_id)
          × (row.state ≡ MutationState.pending)
          × (row.payload_hash ≡ old.current_blob_hash)
          × (row.operation ≡ MutationOperation.update)
          × ((head : ℤ) × (row.base_revision ≡ some head) × (leb_ℤ (pos 1) head ≡ true)))
      × ((m : LocalMutation)
          → Memᴰ m t.mutations
          → m.skill_id ≡ skill_id
          → is_conflict m.state ≡ false)
      × (t.sync ≡ s.sync)
keep_local_effect mutation_id now skill_id confirmed s t applied h =
    let (skill, head, agreed, read, known, em, es, esync) =
      keep_local_tables mutation_id now skill_id confirmed s t
        (resolve_keep_local-KeptLocal mutation_id now skill_id confirmed s applied t h) in
    let (found, conflicted) = read_conflicted skill_id s skill read in
    let row = requeued_row mutation_id now skill_id confirmed s skill head in
    (
      agreed,
      (
        skill,
        requeued_skill head skill,
        row,
        found,
        conflicted,
        rw es (
            find_where-update_hit (has_skill_id skill_id) (requeued_skill head) s.skills skill
              (λ x. refl) found),
        refl,
        refl,
        em,
        refl,
        refl,
        refl,
        refl,
        (head, refl, positive_head skill_id skill head known),
      ),
      (λ m inside same.
          elim (mem-append_cases
            (update_where (is_conflict_of skill_id) superseded_mutation s.mutations) (row ∷ [])
            (rw em at inside)) [
              | inl old ↦ superseded_none skill_id s.mutations m old same
              | inr new ↦ ap (λ (r : LocalMutation). is_conflict r.state) (mem-singleton new)
            ]),
      esync,
    )

blocks_not : (m row : LocalMutation) → is_acked m.state ≡ true → blocks row m ≡ false
blocks_not m row acked = ground arith

self_blocks : (row : LocalMutation) → blocks row row ≡ false
self_blocks row = ground arith

module _ (mutation_id : String) (now : ℕ) (skill_id : String) (s : LocalStore) where
  retired_acked :
      (x : LocalMutation)
      → (x.skill_id ≡ skill_id → (is_acked x.state ≡ true) ⊎ (is_conflict x.state ≡ true))
      → (updated (is_conflict_of skill_id) superseded_mutation x).skill_id ≡ skill_id
      → is_acked (updated (is_conflict_of skill_id) superseded_mutation x).state ≡ true
  retired_acked x finished same = elim (Bool-cases (is_conflict_of skill_id x)) [
    | inl hit ↦ rw hit refl
    | inr miss ↦
        let e : x.skill_id ≡ skill_id = rw miss at same in
        elim (finished e) [
          | inl acked ↦ rw miss acked
          | inr conflicted ↦ ground (arith, eq_iff x.skill_id skill_id)
        ]
  ]

  unblocked :
      (row : LocalMutation)
      → row.skill_id ≡ skill_id
      → ((x : LocalMutation)
          → Memᴰ x s.mutations
          → x.skill_id ≡ skill_id
          → (is_acked x.state ≡ true) ⊎ (is_conflict x.state ≡ true))
      → exists_where
          (blocks row)
          (update_where (is_conflict_of skill_id) superseded_mutation s.mutations ++ (row ∷ []))
        ≡ false
  unblocked row same finished =
      let retired = update_where (is_conflict_of skill_id) superseded_mutation s.mutations in
      not_exists_where (blocks row) (retired ++ (row ∷ [])) λ m inside.
        elim (mem-append_cases retired (row ∷ []) inside) [
          | inl old ↦
              let (x, mx, e) =
                update_where-mem (is_conflict_of skill_id) superseded_mutation s.mutations old in
              elim (Bool-cases (m.skill_id == row.skill_id)) [
                | inl of_skill ↦
                    let em : m.skill_id ≡ skill_id =
                      (eq_iff m.skill_id row.skill_id).0 of_skill ∙ same in
                    let acked : is_acked m.state ≡ true =
                      ap (λ (r : LocalMutation). is_acked r.state) e
                      ∙ retired_acked x (finished x mx)
                          (ap (λ (r : LocalMutation). r.skill_id) (sym e) ∙ em) in
                    blocks_not m row acked
                | inr of_other ↦ rw of_other refl
              ]
          | inr new ↦ rw (mem-singleton new) (self_blocks row)
        ]

-- Where every mutation of the skill was acknowledged or in conflict, the mutation that a successful
-- keep-local queues is dispatchable, whatever the time.
pub keep_local_dispatchable :
    (mutation_id : String) (now : ℕ) (skill_id : String) (confirmed : Bool) (s t : LocalStore)
    (applied : ResolutionApplied) (at : ℕ)
    → resolve_keep_local mutation_id now skill_id confirmed s ≡ ok (applied, t)
    → ((x : LocalMutation)
        → Memᴰ x s.mutations
        → x.skill_id ≡ skill_id
        → (is_acked x.state ≡ true) ⊎ (is_conflict x.state ≡ true))
    → (row : LocalMutation) × Memᴰ row t.mutations
      × (row.id ≡ mutation_id)
      × (is_dispatchable at t.mutations row ≡ true)
keep_local_dispatchable mutation_id now skill_id confirmed s t applied at h finished =
    let (skill, head, agreed, read, known, em, es, esync) =
      keep_local_tables mutation_id now skill_id confirmed s t
        (resolve_keep_local-KeptLocal mutation_id now skill_id confirmed s applied t h) in
    let row = requeued_row mutation_id now skill_id confirmed s skill head in
    let retired = update_where (is_conflict_of skill_id) superseded_mutation s.mutations in
    (
      row,
      rw em (mem-append_right retired (row ∷ []) (Memᴰ.head refl)),
      refl,
      rw (em, unblocked mutation_id now skill_id s row refl finished) refl,
    )
