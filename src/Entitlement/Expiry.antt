-- ===== src/Entitlement/Expiry.antt =====
-- What an expiry run leaves of the skills whose lease is due.
use skill_hive.Prelude.{
  ℕ, String, ◌≡◌, refl, sym, ap, ◌∙◌, true, false, ◌&&◌, inl, inr, some, List, [], ◌∷◌, map, Memᴰ,
  arith, subst, ◌==◌, eq_iff, Bool-cases, select_where, select_where-mem, exists_where,
  exists_where-false, update_where-mem,
}
use skill_hive.Store.{LocalSkill, LocalStore, SkillSyncState, StoredEntitlement, ok}
use skill_hive.Entitlement.Lease.{
  is_past, is_expirable_state, is_due_lease, is_expirable, with_state, expire_skill, expire_skills,
  due_skills, expire_due_entitlements, entitlement_allows_offline_use,
}

-- No skill with this key is left to expire.
abbrev IsExpired : String → LocalStore → Type 0
IsExpired id s =
    (k : LocalSkill) → Memᴰ k s.skills → k.id ≡ id → is_expirable_state k.sync_state ≡ false

expire_skill-IsExpired : (id : String) (s : LocalStore) → IsExpired id (expire_skill id s)
expire_skill-IsExpired id s k inside same =
    let (x, mx, e) =
      update_where-mem (is_expirable id) (with_state SkillSyncState.access_revoked) s.skills
        inside in
    elim (Bool-cases (is_expirable id x)) [
      | inl hit ↦ ap (λ (r : LocalSkill). is_expirable_state r.sync_state) (rw hit at e)
      | inr miss ↦ let ex : k ≡ x = rw miss at e in ground (arith, eq_iff x.id id)
    ]

expire_skill-keeps_IsExpired :
    (id other : String) (s : LocalStore) → IsExpired id s → IsExpired id (expire_skill other s)
expire_skill-keeps_IsExpired id other s expired k inside same =
    let (x, mx, e) =
      update_where-mem (is_expirable other) (with_state SkillSyncState.access_revoked) s.skills
        inside in
    elim (Bool-cases (is_expirable other x)) [
      | inl hit ↦ ap (λ (r : LocalSkill). is_expirable_state r.sync_state) (rw hit at e)
      | inr miss ↦
          let ex : k ≡ x = rw miss at e in
          ap (λ (r : LocalSkill). is_expirable_state r.sync_state) ex
          ∙ expired x mx (ap (λ (r : LocalSkill). r.id) (sym ex) ∙ same)
    ]

expire_skills-keeps_IsExpired :
    (id : String) (ids : List String) (s : LocalStore)
    → IsExpired id s
    → IsExpired id (expire_skills ids s)
expire_skills-keeps_IsExpired id [] s expired = expired
expire_skills-keeps_IsExpired id (x ∷ xs) s expired =
    expire_skills-keeps_IsExpired id xs (expire_skill x s)
      (expire_skill-keeps_IsExpired id x s expired)

expire_skills-IsExpired :
    (id : String) (ids : List String) (s : LocalStore)
    → Memᴰ id ids
    → IsExpired id (expire_skills ids s)
expire_skills-IsExpired id [] s inside = elim inside [ ]
expire_skills-IsExpired id (x ∷ xs) s (Memᴰ.head e) =
    expire_skills-keeps_IsExpired id xs (expire_skill x s)
      (subst (λ y. IsExpired id (expire_skill y s)) e (expire_skill-IsExpired id s))
expire_skills-IsExpired id (x ∷ xs) s (Memᴰ.tail inside) =
    expire_skills-IsExpired id xs (expire_skill x s) inside

mem-map-skill_id :
    (row : StoredEntitlement) (rows : List StoredEntitlement)
    → Memᴰ row rows
    → Memᴰ row.skill_id (map (λ (r : StoredEntitlement). r.skill_id) rows)
mem-map-skill_id row [] inside = elim inside [ ]
mem-map-skill_id row (x ∷ xs) (Memᴰ.head e) =
    Memᴰ.head (ap (λ (r : StoredEntitlement). r.skill_id) e)
mem-map-skill_id row (x ∷ xs) (Memᴰ.tail inside) = Memᴰ.tail (mem-map-skill_id row xs inside)

-- An expiry run always succeeds, and afterwards no skill with a lease that is due, at the time of the
-- run, is remote only, synced or in sync error, and the lease allows no offline use.
pub expiry_is_complete :
    (now : ℕ) (s : LocalStore)
    → (ids : List String) × (t : LocalStore) × (expire_due_entitlements now s ≡ ok (ids, t))
      × ((row : StoredEntitlement)
          → Memᴰ row s.entitlements
          → is_past now row.expires_at ≡ true
          → ((k : LocalSkill)
              → Memᴰ k t.skills
              → k.id ≡ row.skill_id
              → is_expirable_state k.sync_state ≡ false)
            × (entitlement_allows_offline_use (some row) now ≡ false))
unfolding expire_due_entitlements entitlement_allows_offline_use
expiry_is_complete now s = (
  due_skills now s,
  expire_skills (due_skills now s) s,
  refl,
  λ row inside past. (expired_after row inside past, offline row past),
)
  where
    offline :
        (row : StoredEntitlement)
        → is_past now row.expires_at ≡ true
        → entitlement_allows_offline_use (some row) now ≡ false
    offline row past = ground arith

    none_left :
        (row : StoredEntitlement)
        → is_past now row.expires_at ≡ true
        → is_due_lease now s.skills row ≡ false
        → IsExpired row.skill_id s
    none_left row past idle k inside same =
        let free : exists_where
              (λ skill. skill.id == row.skill_id && is_expirable_state skill.sync_state) s.skills
            ≡ false =
          rw past at idle in
        ground (
          arith,
          exists_where-false
              (λ (skill : LocalSkill).
                skill.id == row.skill_id && is_expirable_state skill.sync_state)
              s.skills free inside,
          eq_iff k.id row.skill_id,
        )

    expired_after :
        (row : StoredEntitlement)
        → Memᴰ row s.entitlements
        → is_past now row.expires_at ≡ true
        → IsExpired row.skill_id (expire_skills (due_skills now s) s)
    expired_after row inside past = elim (Bool-cases (is_due_lease now s.skills row)) [
      | inl due ↦ expire_skills-IsExpired row.skill_id (due_skills now s) s (
          mem-map-skill_id row (select_where (is_due_lease now s.skills) s.entitlements)
            (select_where-mem (is_due_lease now s.skills) s.entitlements inside due))
      | inr idle ↦
          expire_skills-keeps_IsExpired row.skill_id (due_skills now s) s (none_left row past idle)
    ]
