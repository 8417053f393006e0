-- ===== src/Pull/Changes.antt =====
-- Every change of a page, and the page, preserve the local work.
use skill_hive.Prelude.{
  ℕ, String, ◌≡◌, refl, sym, ap, ◌∙◌, Bool, true, false, not, ◌||◌, ◌⊎◌, inl, inr, none, some, List,
  Memᴰ, arith, eq_iff, Bool-cases, Option-cases, find_where, find_where-some, exists_where,
  update_where, coalesce, ℤ,
}
use skill_hive.Store.{
  LocalSkill, LocalStore, SkillSyncState, ok, database, >>=-eq-ok, >>-eq-ok, ok_parts, ok-injective,
  reject_if,
}
use skill_hive.Store.Keys.{IsKeyed}
use skill_hive.Outbox.{has_skill_id, is_negative?, takes_remote_id}
use skill_hive.Outbox.Invariant.{IsOutbox}
use skill_hive.Outcome.{is_unacked_of}
use skill_hive.Entitlement.{
  EntitlementPayload, EntitlementReconciled, parse_instant, is_past, reconcile_skills, is_revocable,
  is_restorable, with_state, apply_entitlement, is_policy, is_ttl,
}
use skill_hive.Pull.Apply.{
  ChangeItem, find_head, has_remote_id, is_stale, is_local_work, inserted_remote, pulled_skill,
  apply_upsert, buried_conflict, delete_skill, apply_tombstone,
}
use skill_hive.Pull.Preserves.{
  Preserves, Preserves-refl, update-Preserves, insert-Preserves, remove-Preserves,
}

-- The row that was found is in the table.
pub find_head-mem :
    (id : String) (skills : List LocalSkill) (head : LocalSkill)
    → find_head id skills ≡ some head
    → Memᴰ head skills
find_head-mem id skills head h = elim (Option-cases (find_where (has_skill_id id) skills)) [
  | inl missing ↦ (find_where-some (has_remote_id id) skills (rw missing at h)).0
  | inr found ↦ let (k, e) = found in (find_where-some (has_skill_id id) skills (e ∙ rw e at h)).0
]

pub find_head-none :
    (id : String) (skills : List LocalSkill)
    → find_head id skills ≡ none
    → find_where (has_skill_id id) skills ≡ none
find_head-none id skills h = ground arith

module _ (s t : LocalStore) (keys : IsKeyed s.skills) (box : IsOutbox s.mutations) where
  pub same-Preserves : t ≡ s → Preserves s t
  same-Preserves e = rw e (Preserves-refl s keys box)

  pulled-Preserves :
      (change : ChangeItem) (head : LocalSkill)
      → Memᴰ head s.skills
      → t ≡ record s {
        skills = update_where (has_skill_id head.id) (pulled_skill change head) s.skills;
      }
      → Preserves s t
  pulled-Preserves change head inside e =
      update-Preserves (has_skill_id head.id) (pulled_skill change head) s t keys box
        (ap (λ (r : LocalStore). r.skills) e) (ap (λ (r : LocalStore). r.mutations) e) (λ k. refl)
        (λ k mk hit dirty.
          let same : k ≡ head = keys k head mk inside ((eq_iff k.id head.id).0 hit) in
          let work : is_local_work head.sync_state ≡ true =
            ap (λ (r : LocalSkill). is_local_work r.sync_state) (sym same) ∙ dirty in
          rw work (refl, refl))

  buried-Preserves :
      (revision : ℤ) (head : LocalSkill)
      → t ≡ record s {
        skills = update_where (has_skill_id head.id) (buried_conflict revision) s.skills;
      }
      → Preserves s t
  buried-Preserves revision head e =
      update-Preserves (has_skill_id head.id) (buried_conflict revision) s t keys box
        (ap (λ (r : LocalStore). r.skills) e) (ap (λ (r : LocalStore). r.mutations) e) (λ k. refl)
        (λ k mk hit dirty. (refl, refl))

  pub apply_upsert-Preserves :
      (temp_dir : String) (change : ChangeItem) (n : ℕ)
      → apply_upsert temp_dir change s ≡ ok (n, t)
      → Preserves s t
  unfolding apply_upsert
  apply_upsert-Preserves temp_dir change n h =
      elim (Option-cases (find_head change.resource_id s.skills)) [
        | inl missing ↦
            let h1 =
              >>-eq-ok (reject_if (is_negative? (some change.resource_revision)) database) _
                (rw (apply_upsert, missing) at h) in
            let e = sym (ok_parts h1).1 in
            insert-Preserves (inserted_remote temp_dir change) s t keys box
              (ap (λ (r : LocalStore). r.skills) e) (ap (λ (r : LocalStore). r.mutations) e)
              (find_head-none change.resource_id s.skills missing)
        | inr found ↦
            let (head, eh) = found in
            elim (Bool-cases (is_stale change.resource_revision head.remote_revision)) [
              | inl stale ↦ same-Preserves (sym (ok_parts (rw (apply_upsert, eh, stale) at h)).1)
              | inr newer ↦
                  let test =
                    is_negative? (some change.resource_revision)
                    || exists_where
                        (takes_remote_id head.id (coalesce head.remote_id (some head.id)))
                        s.skills in
                  let h1 =
                    >>-eq-ok (reject_if test database) _ (rw (apply_upsert, eh, newer) at h) in
                  pulled-Preserves change head (find_head-mem change.resource_id s.skills head eh)
                    (sym (ok_parts h1).1)
            ]
      ]

  pub apply_tombstone-Preserves :
      (change : ChangeItem) → apply_tombstone change s ≡ ok t → Preserves s t
  unfolding apply_tombstone delete_skill
  apply_tombstone-Preserves change h = elim (Option-cases (find_head change.resource_id s.skills)) [
    | inl missing ↦ same-Preserves (sym (ok-injective (rw (apply_tombstone, missing) at h)))
    | inr found ↦
        let (head, eh) = found in
        elim (Bool-cases (is_stale change.resource_revision head.remote_revision)) [
          | inl stale ↦ same-Preserves (sym (ok-injective (rw (apply_tombstone, eh, stale) at h)))
          | inr newer ↦ elim (Bool-cases (exists_where (is_unacked_of head.id) s.mutations)) [
            | inl dirty ↦
                let h1 =
                  >>-eq-ok (reject_if (is_negative? (some change.resource_revision)) database) _
                    (rw (apply_tombstone, eh, newer, dirty) at h) in
                buried-Preserves change.resource_revision head (sym (ok-injective h1))
            | inr settled ↦
                let e = sym (ok-injective (rw (apply_tombstone, eh, newer, settled) at h)) in
                remove-Preserves head.id s t keys box (ap (λ (r : LocalStore). r.skills) e)
                  (ap (λ (r : LocalStore). r.mutations) e) settled
          ]
        ]
  ]

  reconciled-Preserves :
      (skill_id : String) (expired : Bool)
      → t.skills ≡ reconcile_skills skill_id expired s.skills
      → t.mutations ≡ s.mutations
      → Preserves s t
  reconciled-Preserves skill_id true es em =
      update-Preserves (is_revocable skill_id) (with_state SkillSyncState.access_revoked) s t keys
        box es em (λ k. refl) (λ k mk hit dirty. absurd (not_both k hit dirty))
    where
      not_both :
          (k : LocalSkill) → is_revocable skill_id k ≡ true → is_local_work k.sync_state ≡ true → ⊥
      not_both k hit dirty = ground arith
  reconciled-Preserves skill_id false es em =
      update-Preserves (is_restorable skill_id) (with_state SkillSyncState.remote_only) s t keys box
        es em (λ k. refl) (λ k mk hit dirty. absurd (not_both k hit dirty))
    where
      not_both :
          (k : LocalSkill) → is_restorable skill_id k ≡ true → is_local_work k.sync_state ≡ true → ⊥
      not_both k hit dirty = ground arith

  pub apply_entitlement-Preserves :
      (parse : String → ℕ ⊎ String) (instant : ℕ) (skill_id : String) (payload : EntitlementPayload)
      (r : EntitlementReconciled)
      → apply_entitlement parse instant skill_id payload s ≡ ok (r, t)
      → Preserves s t
  unfolding apply_entitlement
  apply_entitlement-Preserves parse instant skill_id payload r h =
      let test =
        not (is_policy payload.offline_policy)
        || not (is_ttl payload.offline_ttl_hours)
        || not (exists_where (has_skill_id skill_id) s.skills) in
      let (expires_at, pe, h1) =
        >>=-eq-ok (parse_instant parse skill_id "expires_at" payload.expires_at) _ h in
      let (issued_at, pi, h2) =
        >>=-eq-ok (parse_instant parse skill_id "issued_at" payload.issued_at) _ h1 in
      let h3 = >>-eq-ok (reject_if test database) _ h2 in
      let e = sym (ok_parts h3).1 in
      reconciled-Preserves skill_id (is_past instant expires_at)
        (ap (λ (r : LocalStore). r.skills) e) (ap (λ (r : LocalStore). r.mutations) e)
