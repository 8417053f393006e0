-- ===== src/Outcome/Settled.antt =====
-- When a skill counts as synced.
use skill_hive.Prelude.{
  ℕ, ◌≡◌, refl, sym, ap, ◌∙◌, true, false, ◌⊎◌, inl, inr, Memᴰ, arith, eq_iff, exists_where,
  update_where, update_where-mem, Bool-cases, ℤ,
}
use skill_hive.Store.{LocalSkill, LocalMutation, LocalStore, MutationState, SkillSyncState, ok}
use skill_hive.Outbox.{has_id, has_skill_id}
use skill_hive.Outcome.Statuses.{apply_status-cases, refusal_grounded, IsRefusal, is_synced}
use skill_hive.Outcome.Apply.{
  MutationOutcome, OutcomeApplied, apply_acked, apply_definitive_error, apply_transport_error,
  apply_mutation_outcome, acked_mutation, acked_skill, is_unacked_of, is_settled, synced_skill,
  refused_skill,
}
use skill_hive.Outcome.Keeps.{apply_mutation_outcome-Applied}

-- The skill was synced before, or none of its mutations is unacknowledged.
abbrev pub WasSynced : LocalStore → LocalSkill → Type 0
WasSynced s k =
    (k0 : LocalSkill) × Memᴰ k0 s.skills × (k0.id ≡ k.id) × (is_synced k0.sync_state ≡ true)

abbrev Settles : LocalStore → LocalStore → LocalSkill → Type 0
Settles s t k = (exists_where (is_unacked_of k.id) t.mutations ≡ false) ⊎ WasSynced s k

module _ (now : ℕ) (raw : LocalMutation) (outcome : MutationOutcome) (s t : LocalStore)
    (k : LocalSkill) (inside : Memᴰ k t.skills) (synced : is_synced k.sync_state ≡ true) where
  acked-Settles : (revision : ℤ) → apply_acked raw outcome revision s ≡ ok t → Settles s t k
  unfolding apply_acked
  acked-Settles revision h =
      let mutations =
        update_where (has_id outcome.mutation_id) (acked_mutation outcome revision) s.mutations in
      let settled = is_settled raw.skill_id mutations in
      let acked = acked_skill outcome revision in
      let em : t.mutations ≡ mutations = ground arith in
      let es : t.skills
          ≡ update_where settled synced_skill
              (update_where (has_skill_id raw.skill_id) acked s.skills) =
        ground arith in
      let (x, mx, ex) =
        update_where-mem settled synced_skill
          (update_where (has_skill_id raw.skill_id) acked s.skills) (rw es at inside) in
      let (y, my, ey) = update_where-mem (has_skill_id raw.skill_id) acked s.skills mx in
      elim (Bool-cases (settled x)) [
        | inl now_settled ↦
            let ek : k.id ≡ raw.skill_id = ground (arith, eq_iff x.id raw.skill_id) in
            inl (rw (em, ek) (ground arith))
        | inr not_settled ↦
            let ekx : k ≡ x = rw not_settled at ex in inr (y, my, ground arith, ground arith)
      ]

  refused-Settles :
      (state : MutationState) (skill_state : SkillSyncState)
      → IsRefusal state skill_state
      → apply_definitive_error raw outcome state skill_state s ≡ ok t
      → Settles s t k
  unfolding apply_definitive_error
  refused-Settles state skill_state refusal h =
      let es : t.skills
          ≡ update_where (has_skill_id raw.skill_id) (refused_skill outcome skill_state) s.skills =
        ground arith in
      let (y, my, ey) =
        update_where-mem (has_skill_id raw.skill_id) (refused_skill outcome skill_state) s.skills
          (rw es at inside) in
      let (grounded, unacked, unsynced) = refusal_grounded refusal in
      elim (Bool-cases (has_skill_id raw.skill_id y)) [
        | inl hit ↦
            let e : k.sync_state ≡ skill_state =
              ap (λ (r : LocalSkill). r.sync_state) (rw hit at ey) in
            absurd (clash (sym synced ∙ ap is_synced e ∙ unsynced))
        | inr miss ↦
            let e : k ≡ y = rw miss at ey in
            inr (
              y,
              my,
              ap (λ (r : LocalSkill). r.id) (sym e),
              ap (λ (r : LocalSkill). is_synced r.sync_state) (sym e) ∙ synced,
            )
      ]
    where
      clash : true ≡ false → ⊥
      clash h = cc

  retried-Settles : apply_transport_error now raw outcome s ≡ t → Settles s t k
  unfolding apply_transport_error
  retried-Settles h =
      let es : t.skills ≡ s.skills = ap (λ (r : LocalStore). r.skills) (sym h) in
      inr (k, rw es at inside, refl, synced)

-- No outcome marks a skill as synced while it has work left: a skill that is synced afterwards was
-- synced before, or every mutation of it is acknowledged.
pub synced_is_settled :
    (now : ℕ) (outcome : MutationOutcome) (s t : LocalStore) (applied : OutcomeApplied)
    (k : LocalSkill)
    → apply_mutation_outcome now outcome s ≡ ok (applied, t)
    → Memᴰ k t.skills
    → is_synced k.sync_state ≡ true
    → Settles s t k
synced_is_settled now outcome s t applied k done inside synced =
    let (raw, found, which) = apply_mutation_outcome-Applied now outcome s applied t done in
    elim which [
      | inl replay ↦
          let e : t.skills ≡ s.skills = ap (λ (r : LocalStore). r.skills) replay.0.1 in
          inr (k, rw e at inside, refl, synced)
      | inr fresh ↦ elim (apply_status-cases now raw outcome s t fresh.0.1) [
        | inl acknowledged ↦
            let (revision, status, known, h) = acknowledged in
            acked-Settles now raw outcome s t k inside synced revision h
        | inr (inl refused) ↦
            let (state, skill_state, refusal, h) = refused in
            refused-Settles now raw outcome s t k inside synced state skill_state refusal h
        | inr (inr retried) ↦ retried-Settles now raw outcome s t k inside synced retried
      ]
    ]
