-- ===== src/Pull/Replay.antt =====
-- A change that is pulled again.
use skill_hive.Prelude.{
  ℕ, String, ◌≡◌, refl, sym, ap, ◌∙◌, true, false, ◌||◌, inl, inr, Option, none, some, List, [],
  ◌∷◌, ◌++◌, ◌==◌, eq_refl, Bool-cases, Option-cases, find_where, find_where-some, find_where-none,
  exists_where, update_where, find_where-update_where, find_where-append_none, coalesce, leb_ℤ-refl,
}
use skill_hive.Store.{LocalSkill, LocalStore, ok, database, >>-eq-ok, ok_parts, reject_if}
use skill_hive.Outbox.{has_skill_id, is_negative?, is_text, takes_remote_id}
use skill_hive.Pull.Apply.{
  ChangeItem, find_head, has_remote_id, is_stale, pulled_skill, inserted_remote, apply_upsert,
}
use skill_hive.Pull.Changes.{find_head-none}

-- The row that the change finds has its revision or a later one.
abbrev IsCurrent : ChangeItem → LocalStore → Type 0
IsCurrent change t =
    (head : LocalSkill) × (find_head change.resource_id t.skills ≡ some head)
    × (is_stale change.resource_revision head.remote_revision ≡ true)

current_replay :
    (temp_dir : String) (change : ChangeItem) (t : LocalStore)
    → IsCurrent change t
    → apply_upsert temp_dir change t ≡ ok (0, t)
unfolding apply_upsert
current_replay temp_dir change t (head, found, stale) = rw (apply_upsert, found, stale) refl

inserted-IsCurrent :
    (temp_dir : String) (change : ChangeItem) (skills : List LocalSkill)
    → find_head change.resource_id skills ≡ none
    → find_head change.resource_id (skills ++ (inserted_remote temp_dir change ∷ []))
      ≡ some (inserted_remote temp_dir change)
inserted-IsCurrent temp_dir change skills missing =
    let row = inserted_remote temp_dir change in
    let found : find_where (has_skill_id change.resource_id) (skills ++ (row ∷ [])) ≡ some row =
      find_where-append_none (has_skill_id change.resource_id) skills (row ∷ [])
        (find_head-none change.resource_id skills missing)
      ∙ rw eq_refl refl in
    rw found refl

module _ (change : ChangeItem) (head : LocalSkill) (skills : List LocalSkill) where
  -- The update of the row that was found is found again.
  by_key :
      find_where (has_skill_id change.resource_id) skills ≡ some head
      → find_head change.resource_id
          (update_where (has_skill_id head.id) (pulled_skill change head) skills)
        ≡ some (pulled_skill change head head)
  by_key found =
      let e : find_where (has_skill_id change.resource_id)
            (update_where (has_skill_id head.id) (pulled_skill change head) skills)
          ≡ some (pulled_skill change head head) =
        find_where-update_where (has_skill_id change.resource_id) (has_skill_id head.id)
          (pulled_skill change head) skills (λ x. refl)
        ∙ rw (found, eq_refl) refl in
      rw e refl

  by_remote_id :
      find_where (has_skill_id change.resource_id) skills ≡ none
      → find_where (has_remote_id change.resource_id) skills ≡ some head
      → find_head change.resource_id
          (update_where (has_skill_id head.id) (pulled_skill change head) skills)
        ≡ some (pulled_skill change head head)
  by_remote_id missing found =
      let e1 : find_where (has_skill_id change.resource_id)
            (update_where (has_skill_id head.id) (pulled_skill change head) skills)
          ≡ none =
        find_where-update_where (has_skill_id change.resource_id) (has_skill_id head.id)
          (pulled_skill change head) skills (λ x. refl)
        ∙ rw missing refl in
      let other : (head.id == change.resource_id) ≡ false =
        find_where-none (has_skill_id change.resource_id) skills missing
          (find_where-some (has_remote_id change.resource_id) skills found).0 in
      let e2 : find_where (has_remote_id change.resource_id)
            (update_where (has_skill_id head.id) (pulled_skill change head) skills)
          ≡ some (pulled_skill change head head) =
        find_where-update_where (has_remote_id change.resource_id) (has_skill_id head.id)
          (pulled_skill change head) skills (λ x. keeps x.remote_id other)
        ∙ rw (found, eq_refl) refl in
      rw (e1, e2) refl
    where
      keeps :
          (remote : Option String)
          → (head.id == change.resource_id) ≡ false
          → is_text (coalesce remote (some head.id)) change.resource_id
            ≡ is_text remote change.resource_id
      keeps none other = other
      keeps (some value) other = refl

  updated_head :
      find_head change.resource_id skills ≡ some head
      → find_head change.resource_id
          (update_where (has_skill_id head.id) (pulled_skill change head) skills)
        ≡ some (pulled_skill change head head)
  updated_head found = elim (Option-cases (find_where (has_skill_id change.resource_id) skills)) [
    | inl missing ↦ by_remote_id missing (rw missing at found)
    | inr key ↦ let (k, e) = key in by_key (e ∙ rw e at found)
  ]

-- An upsert that is pulled again, after it was applied, counts no conflict and changes nothing: also
-- where the row is keyed by the client and found by its remote ID.
pub upsert_idempotent :
    (temp_dir : String) (change : ChangeItem) (n : ℕ) (s t : LocalStore)
    → apply_upsert temp_dir change s ≡ ok (n, t)
    → apply_upsert temp_dir change t ≡ ok (0, t)
unfolding apply_upsert
upsert_idempotent temp_dir change n s t h =
    elim (Option-cases (find_head change.resource_id s.skills)) [
      | inl missing ↦
          let h1 =
            >>-eq-ok (reject_if (is_negative? (some change.resource_revision)) database) _
              (rw (apply_upsert, missing) at h) in
          let es : t.skills ≡ s.skills ++ (inserted_remote temp_dir change ∷ []) =
            ap (λ (r : LocalStore). r.skills) (sym (ok_parts h1).1) in
          current_replay temp_dir change t (
            inserted_remote temp_dir change,
            rw es (inserted-IsCurrent temp_dir change s.skills missing),
            leb_ℤ-refl change.resource_revision,
          )
      | inr found ↦
          let (head, eh) = found in
          elim (Bool-cases (is_stale change.resource_revision head.remote_revision)) [
            | inl stale ↦
                let es : t ≡ s = sym (ok_parts (rw (apply_upsert, eh, stale) at h)).1 in
                current_replay temp_dir change t (head, rw es eh, stale)
            | inr newer ↦
                let test =
                  is_negative? (some change.resource_revision)
                  || exists_where (takes_remote_id head.id (coalesce head.remote_id (some head.id)))
                      s.skills in
                let h1 = >>-eq-ok (reject_if test database) _ (rw (apply_upsert, eh, newer) at h) in
                let es : t.skills
                    ≡ update_where (has_skill_id head.id) (pulled_skill change head) s.skills =
                  ap (λ (r : LocalStore). r.skills) (sym (ok_parts h1).1) in
                current_replay temp_dir change t (
                  pulled_skill change head head,
                  rw es (updated_head change head s.skills eh),
                  leb_ℤ-refl change.resource_revision,
                )
          ]
    ]
