-- ===== src/Outcome/Transitions.antt =====
-- What an outcome does to the state of its mutation and of its skill.
use skill_hive.Prelude.{
  ℕ, String, ◌≡◌, refl, ◌∙◌, Bool, inl, inr, List, [], ◌∷◌, map, arith, update_where, ℤ,
}
use skill_hive.Store.{LocalSkill, LocalMutation, LocalStore, MutationState, SkillSyncState, ok}
use skill_hive.Outbox.{has_id, has_skill_id}
use skill_hive.Outcome.Statuses.{apply_status-cases}
use skill_hive.Outcome.Apply.{
  MutationOutcome, OutcomeApplied, apply_acked, apply_definitive_error, apply_transport_error,
  apply_status, apply_mutation_outcome, acked_mutation, acked_skill, is_settled, synced_skill,
  refused_skill,
}
use skill_hive.Outcome.Keeps.{work, apply_mutation_outcome-Applied, outcome_keeps_mutations}

abbrev pub LocalCopy : Type 0
LocalCopy = record {
  id : String;
  name : String;
  slug : String;
  workspace : String;
  snapshot : String;
  pinned : Bool;
}

-- What the user has of a skill on this machine.
abbrev pub local_copy : LocalSkill → LocalCopy
local_copy skill = record {
  id = skill.id;
  name = skill.name;
  slug = skill.slug;
  workspace = skill.workspace_path;
  snapshot = skill.current_blob_hash;
  pinned = skill.pinned;
}

local_copy-update :
    (p : LocalSkill → Bool) (f : LocalSkill → LocalSkill) (skills : List LocalSkill)
    → ((k : LocalSkill) → local_copy (f k) ≡ local_copy k)
    → map local_copy (update_where p f skills) ≡ map local_copy skills
local_copy-update p f [] keeps = refl
local_copy-update p f (k ∷ ks) keeps = ground (arith, keeps k, local_copy-update p f ks keeps)

module _ (now : ℕ) (raw : LocalMutation) (outcome : MutationOutcome) (s t : LocalStore) where
  abbrev SameCopies : Type 0
  SameCopies = map local_copy t.skills ≡ map local_copy s.skills

  acked-SameCopies : (revision : ℤ) → apply_acked raw outcome revision s ≡ ok t → SameCopies
  unfolding apply_acked
  acked-SameCopies revision h =
      let mutations =
        update_where (has_id outcome.mutation_id) (acked_mutation outcome revision) s.mutations in
      let skills =
        update_where (has_skill_id raw.skill_id) (acked_skill outcome revision) s.skills in
      let e : t.skills ≡ update_where (is_settled raw.skill_id mutations) synced_skill skills =
        ground arith in
      rw e (
        local_copy-update (is_settled raw.skill_id mutations) synced_skill skills (λ k. refl)
        ∙ local_copy-update (has_skill_id raw.skill_id) (acked_skill outcome revision) s.skills
            (λ k. refl))

  refused-SameCopies :
      (state : MutationState) (skill_state : SkillSyncState)
      → apply_definitive_error raw outcome state skill_state s ≡ ok t
      → SameCopies
  unfolding apply_definitive_error
  refused-SameCopies state skill_state h =
      let e : t.skills
          ≡ update_where (has_skill_id raw.skill_id) (refused_skill outcome skill_state) s.skills =
        ground arith in
      rw e (
        local_copy-update (has_skill_id raw.skill_id) (refused_skill outcome skill_state) s.skills
          (λ k. refl))

  retried-SameCopies : apply_transport_error now raw outcome s ≡ t → SameCopies
  unfolding apply_transport_error
  retried-SameCopies h = ground arith

  apply_status-SameCopies : apply_status now raw outcome s ≡ ok t → SameCopies
  apply_status-SameCopies h = elim (apply_status-cases now raw outcome s t h) [
    | inl acknowledged ↦
        let (revision, status, known, h') = acknowledged in acked-SameCopies revision h'
    | inr (inl refused) ↦
        let (state, skill_state, refusal, h') = refused in refused-SameCopies state skill_state h'
    | inr (inr retried) ↦ retried-SameCopies retried
  ]

-- Whatever the server answers, applying the outcome destroys no local work: the outbox has the
-- same mutations with the same operations and payloads in the same order, and every skill keeps
-- its name, its workspace, its pin and its local snapshot.
pub outcome_preserves_work :
    (now : ℕ) (outcome : MutationOutcome) (s t : LocalStore) (applied : OutcomeApplied)
    → apply_mutation_outcome now outcome s ≡ ok (applied, t)
    → (map work t.mutations ≡ map work s.mutations)
      × (map local_copy t.skills ≡ map local_copy s.skills)
outcome_preserves_work now outcome s t applied done =
    let (raw, found, which) = apply_mutation_outcome-Applied now outcome s applied t done in
    (
      outcome_keeps_mutations now outcome s t applied done,
      elim which [
        | inl replay ↦ rw replay.0.1 refl
        | inr fresh ↦ apply_status-SameCopies now raw outcome s t fresh.0.1
      ],
    )
