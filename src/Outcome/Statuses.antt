-- ===== src/Outcome/Statuses.antt =====
-- The `match` on the status of an outcome, taken apart once for all.
use skill_hive.Prelude.{ℕ, ◌≡◌, refl, Bool, true, false, ◌⊎◌, inl, inr, ◌==◌, eq_iff, Bool-cases, ℤ}
use skill_hive.Store.{
  LocalMutation, LocalStore, MutationState, SkillSyncState, is_acked, is_in_flight, LocalStoreError,
  Result, ok, err, >>=-eq-ok, ok-injective,
}
use skill_hive.Outcome.Apply.{
  MutationOutcome, apply_acked, apply_definitive_error, apply_transport_error, apply_status,
  acked_revision,
}

-- The states that a definitive error gives a mutation and its skill.
pub data IsRefusal : MutationState → SkillSyncState → Type 0 where
  conflicting : IsRefusal MutationState.conflict SkillSyncState.conflict
  denied : IsRefusal MutationState.permission_denied SkillSyncState.access_revoked
  invalid : IsRefusal MutationState.permanent_error SkillSyncState.sync_error

abbrev pub is_synced : SkillSyncState → Bool
is_synced SkillSyncState.synced = true
is_synced _ = false

pub refusal_grounded :
    {state : MutationState} {skill_state : SkillSyncState}
    → IsRefusal state skill_state
    → (is_in_flight state ≡ false) × (is_acked state ≡ false) × (is_synced skill_state ≡ false)
refusal_grounded conflicting = (refl, refl, refl)
refusal_grounded denied = (refl, refl, refl)
refusal_grounded invalid = (refl, refl, refl)

module _ (now : ℕ) (raw : LocalMutation) (outcome : MutationOutcome) (s t : LocalStore) where
  abbrev pub Acknowledged : Type 0
  Acknowledged =
      (revision : ℤ) × (outcome.status ≡ "acked")
      × (acked_revision outcome ≡ ok revision)
      × (apply_acked raw outcome revision s ≡ ok t)

  abbrev pub Refused : Type 0
  Refused =
      (state : MutationState) × (skill_state : SkillSyncState) × IsRefusal state skill_state
      × (apply_definitive_error raw outcome state skill_state s ≡ ok t)

  -- Whatever the status, one of three operations was applied.
  pub apply_status-cases :
      apply_status now raw outcome s ≡ ok t
      → Acknowledged ⊎ (Refused ⊎ (apply_transport_error now raw outcome s ≡ t))
  unfolding apply_status
  apply_status-cases h = elim (Bool-cases (outcome.status == "acked")) [
    | inl acked ↦
        let (revision, known, h') =
          >>=-eq-ok (acked_revision outcome) (λ x. apply_acked raw outcome x s) (rw acked at h) in
        inl (revision, (eq_iff outcome.status "acked").0 acked, known, h')
    | inr e1 ↦ elim (Bool-cases (outcome.status == "conflict")) [
      | inl e ↦
          inr (inl (MutationState.conflict, SkillSyncState.conflict, conflicting, rw (e1, e) at h))
      | inr e2 ↦ elim (Bool-cases (outcome.status == "permission_denied")) [
        | inl e ↦ inr (
            inl (
              MutationState.permission_denied,
              SkillSyncState.access_revoked,
              denied,
              rw (e1, e2, e) at h,
            ))
        | inr e3 ↦ elim (Bool-cases (outcome.status == "validation_error")) [
          | inl e ↦ inr (
              inl (
                MutationState.permanent_error,
                SkillSyncState.sync_error,
                invalid,
                rw (e1, e2, e3, e) at h,
              ))
          | inr e4 ↦ elim (Bool-cases (outcome.status == "transport_error")) [
            | inl e ↦ inr (inr (ok-injective (rw (e1, e2, e3, e4, e) at h)))
            | inr e5 ↦ absurd (refused_status (rw (e1, e2, e3, e4, e5) at h))
          ]
        ]
      ]
    ]
  ]
    where
      refused_status : {e : LocalStoreError} → ◌≡◌ {A = Result LocalStore} (err e) (ok t) → ⊥
      refused_status g = cc
