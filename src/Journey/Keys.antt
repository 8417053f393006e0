-- ===== src/Journey/Keys.antt =====
-- Every operation keeps the keys of the skills unique.
use skill_hive.Prelude.{
  ℕ, zero, suc, String, ◌≡◌, refl, sym, ap, Bool, false, inl, inr, Option, List, [], ◌∷◌, ◌++◌,
  Memᴰ, arith, eq_iff, Bool-cases, exists_where, exists_where-false, update_where, ℤ,
}
use skill_hive.Store.{
  CommitSkillEdit, LocalSkill, LocalMutation, LocalStore, SkillSyncState, MutationState, ok,
  ok_parts,
}
use skill_hive.Store.Keys.{IsKeyed, update-IsKeyed, append-IsKeyed}
use skill_hive.Outbox.{
  has_id, has_skill_id, edited_skill, inserted_skill, upsert_edited_skill, commit_skill_edit,
  queue_skill_delete, dirtied, claim_dispatchable_mutations, release_in_flight_mutations,
  recover_in_flight_mutations,
}
use skill_hive.Outbox.Inserted.{insert_mutation-eq}
use skill_hive.Outbox.Edits.{commit_skill_edit-Commit, committed_row}
use skill_hive.Outbox.Deletions.{queue_skill_delete-Deletion}
use skill_hive.Outbox.Claimed.{claim_dispatchable-Claim, zero_claim}
use skill_hive.Outcome.{
  MutationOutcome, OutcomeApplied, apply_acked, apply_definitive_error, apply_transport_error,
  apply_mutation_outcome, acked_mutation, acked_skill, is_settled, synced_skill, refused_skill,
}
use skill_hive.Outcome.Statuses.{apply_status-cases}
use skill_hive.Outcome.Keeps.{apply_mutation_outcome-Applied}
use skill_hive.Conflict.{
  ResolutionApplied, requeued_skill, resolve_keep_local, adopted_skill, resolve_keep_remote,
  supersede_conflict_chain,
}
use skill_hive.Conflict.Keeps.{resolve_keep_local-KeptLocal, keep_local_tables}
use skill_hive.Conflict.Remote.{resolve_keep_remote-KeptRemote}
use skill_hive.Entitlement.{
  is_expirable, with_state, expire_skill, expire_skills, due_skills, expire_due_entitlements,
}

module _ (s t : LocalStore) (keys : IsKeyed s.skills) where
  same-IsKeyed : t.skills ≡ s.skills → IsKeyed t.skills
  same-IsKeyed e = rw e keys

  pub commit-IsKeyed :
      (mutation_id : String) (now : ℕ) (edit : CommitSkillEdit) (row : LocalMutation)
      → commit_skill_edit mutation_id now edit s ≡ ok (row, t)
      → IsKeyed t.skills
  unfolding upsert_edited_skill
  commit-IsKeyed mutation_id now edit row h =
      let (path, skills, valid, upserted, inserted, er) =
        commit_skill_edit-Commit mutation_id now edit s row t h in
      let e =
        insert_mutation-eq (committed_row mutation_id now edit s) (record s { skills = skills }) t
          inserted in
      let es : t.skills ≡ skills = ap (λ (r : LocalStore). r.skills) e in
      elim (Bool-cases (exists_where (has_skill_id edit.skill_id) s.skills)) [
        | inl old ↦
            let eo : skills
                ≡ update_where (has_skill_id edit.skill_id) (edited_skill edit path) s.skills =
              ground arith in
            rw (es, eo)
              (update-IsKeyed (has_skill_id edit.skill_id) (edited_skill edit path) s.skills keys
                (λ k. refl))
        | inr new ↦
            let en : skills ≡ s.skills ++ (inserted_skill edit path ∷ []) = ground arith in
            rw (es, en)
              (append-IsKeyed (inserted_skill edit path) s.skills keys
                (λ k inside same. apart edit.skill_id k inside same new))
      ]
    where
      apart :
          (id : String) (k : LocalSkill)
          → Memᴰ k s.skills
          → k.id ≡ id
          → exists_where (has_skill_id id) s.skills ≡ false
          → ⊥
      apart id k inside same new =
          ground (arith, exists_where-false (has_skill_id id) s.skills new inside, eq_iff k.id id)

  pub queue_delete-IsKeyed :
      (mutation_id : String) (now : ℕ) (skill_id : String) (base : Option ℤ) (row : LocalMutation)
      → queue_skill_delete mutation_id now skill_id base s ≡ ok (row, t)
      → IsKeyed t.skills
  queue_delete-IsKeyed mutation_id now skill_id base row h =
      let (skill, found, er, inserted) =
        queue_skill_delete-Deletion mutation_id now skill_id base s row t h in
      let e =
        insert_mutation-eq row
          (record s { skills = update_where (has_skill_id skill_id) dirtied s.skills }) t
          inserted in
      let es : t.skills ≡ update_where (has_skill_id skill_id) dirtied s.skills =
        ap (λ (r : LocalStore). r.skills) e in
      rw es (update-IsKeyed (has_skill_id skill_id) dirtied s.skills keys (λ k. refl))

  pub claim-IsKeyed :
      (now limit : ℕ) (rows : List LocalMutation)
      → claim_dispatchable_mutations now limit s ≡ ok (rows, t)
      → IsKeyed t.skills
  claim-IsKeyed now zero rows h =
      same-IsKeyed (ap (λ (r : LocalStore). r.skills) (zero_claim now s rows t h).1)
  claim-IsKeyed now (suc limit) rows h =
      let (candidates, claimed, read, done, er, et) =
        claim_dispatchable-Claim now limit s rows t h in
      same-IsKeyed (ap (λ (r : LocalStore). r.skills) et)

  pub release-IsKeyed :
      (ids : List String) (n : ℕ) → release_in_flight_mutations ids s ≡ ok (n, t) → IsKeyed t.skills
  unfolding release_in_flight_mutations
  release-IsKeyed ids n h = same-IsKeyed (ap (λ (r : LocalStore). r.skills) (sym (ok_parts h).1))

  pub recover-IsKeyed : (n : ℕ) → recover_in_flight_mutations s ≡ ok (n, t) → IsKeyed t.skills
  unfolding recover_in_flight_mutations
  recover-IsKeyed n h = same-IsKeyed (ap (λ (r : LocalStore). r.skills) (sym (ok_parts h).1))

  acked-IsKeyed :
      (raw : LocalMutation) (outcome : MutationOutcome) (revision : ℤ)
      → apply_acked raw outcome revision s ≡ ok t
      → IsKeyed t.skills
  unfolding apply_acked
  acked-IsKeyed raw outcome revision h =
      let mutations =
        update_where (has_id outcome.mutation_id) (acked_mutation outcome revision) s.mutations in
      let skills =
        update_where (has_skill_id raw.skill_id) (acked_skill outcome revision) s.skills in
      let e : t.skills ≡ update_where (is_settled raw.skill_id mutations) synced_skill skills =
        ground arith in
      rw e (
        update-IsKeyed (is_settled raw.skill_id mutations) synced_skill skills
          (update-IsKeyed (has_skill_id raw.skill_id) (acked_skill outcome revision) s.skills keys
            (λ k. refl))
          (λ k. refl))

  refused-IsKeyed :
      (raw : LocalMutation) (outcome : MutationOutcome) (state : MutationState)
      (skill_state : SkillSyncState)
      → apply_definitive_error raw outcome state skill_state s ≡ ok t
      → IsKeyed t.skills
  unfolding apply_definitive_error
  refused-IsKeyed raw outcome state skill_state h =
      let e : t.skills
          ≡ update_where (has_skill_id raw.skill_id) (refused_skill outcome skill_state) s.skills =
        ground arith in
      rw e (
        update-IsKeyed (has_skill_id raw.skill_id) (refused_skill outcome skill_state) s.skills keys
          (λ k. refl))

  retried-IsKeyed :
      (now : ℕ) (raw : LocalMutation) (outcome : MutationOutcome)
      → apply_transport_error now raw outcome s ≡ t
      → IsKeyed t.skills
  unfolding apply_transport_error
  retried-IsKeyed now raw outcome h = same-IsKeyed (ap (λ (r : LocalStore). r.skills) (sym h))

  pub apply_mutation_outcome-IsKeyed :
      (now : ℕ) (outcome : MutationOutcome) (applied : OutcomeApplied)
      → apply_mutation_outcome now outcome s ≡ ok (applied, t)
      → IsKeyed t.skills
  apply_mutation_outcome-IsKeyed now outcome applied h =
      let (raw, found, which) = apply_mutation_outcome-Applied now outcome s applied t h in
      elim which [
        | inl replay ↦ same-IsKeyed (ap (λ (r : LocalStore). r.skills) replay.0.1)
        | inr fresh ↦ elim (apply_status-cases now raw outcome s t fresh.0.1) [
          | inl acknowledged ↦
              let (revision, status, known, h') = acknowledged in
              acked-IsKeyed raw outcome revision h'
          | inr (inl refused) ↦
              let (state, skill_state, refusal, h') = refused in
              refused-IsKeyed raw outcome state skill_state h'
          | inr (inr retried) ↦ retried-IsKeyed now raw outcome retried
        ]
      ]

  pub keep_local-IsKeyed :
      (mutation_id : String) (now : ℕ) (skill_id : String) (confirmed : Bool)
      (applied : ResolutionApplied)
      → resolve_keep_local mutation_id now skill_id confirmed s ≡ ok (applied, t)
      → IsKeyed t.skills
  keep_local-IsKeyed mutation_id now skill_id confirmed applied h =
      let (skill, head, agreed, read, known, em, es, esync) =
        keep_local_tables mutation_id now skill_id confirmed s t
          (resolve_keep_local-KeptLocal mutation_id now skill_id confirmed s applied t h) in
      rw es (update-IsKeyed (has_skill_id skill_id) (requeued_skill head) s.skills keys (λ k. refl))

  pub keep_remote-IsKeyed :
      (skill_id : String) (confirmed : Bool) (applied : ResolutionApplied)
      → resolve_keep_remote skill_id confirmed s ≡ ok (applied, t)
      → IsKeyed t.skills
  unfolding supersede_conflict_chain
  keep_remote-IsKeyed skill_id confirmed applied h =
      let (skill, hash, agreed, read, known, et) =
        resolve_keep_remote-KeptRemote skill_id confirmed s applied t h in
      let es : t.skills ≡ update_where (has_skill_id skill_id) (adopted_skill hash) s.skills =
        ap (λ (r : LocalStore). r.skills) et in
      rw es (update-IsKeyed (has_skill_id skill_id) (adopted_skill hash) s.skills keys (λ k. refl))

expire_skills-IsKeyed :
    (ids : List String) (s : LocalStore) → IsKeyed s.skills → IsKeyed (expire_skills ids s).skills
expire_skills-IsKeyed [] s keys = keys
expire_skills-IsKeyed (id ∷ ids) s keys = expire_skills-IsKeyed ids (expire_skill id s) (
    update-IsKeyed (is_expirable id) (with_state SkillSyncState.access_revoked) s.skills keys
      (λ k. refl))

expire_skills-mutations :
    (ids : List String) (s : LocalStore) → (expire_skills ids s).mutations ≡ s.mutations
expire_skills-mutations [] s = refl
expire_skills-mutations (id ∷ ids) s = expire_skills-mutations ids (expire_skill id s)

pub expire_due-keeps :
    (now : ℕ) (ids : List String) (s t : LocalStore)
    → expire_due_entitlements now s ≡ ok (ids, t)
    → IsKeyed s.skills
    → IsKeyed t.skills × (t.mutations ≡ s.mutations)
unfolding expire_due_entitlements
expire_due-keeps now ids s t h keys =
    let e = sym (ok_parts h).1 in
    rw e (
      expire_skills-IsKeyed (due_skills now s) s keys,
      expire_skills-mutations (due_skills now s) s,
    )
