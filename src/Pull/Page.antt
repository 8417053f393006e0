-- ===== src/Pull/Page.antt =====
-- A pulled page as a whole.
use skill_hive.Prelude.{
  ℕ, String, ◌≡◌, sym, ap, ◌∙◌, false, ◌⊎◌, inl, inr, some, List, [], ◌∷◌, Memᴰ, ◌==◌, Bool-cases,
  Option-cases,
}
use skill_hive.Store.{
  LocalSkill, LocalMutation, LocalStore, is_acked, ok, >>=-eq-ok, >>-eq-ok, ok_parts, ok-injective,
  validate_non_empty,
}
use skill_hive.Store.Keys.{IsKeyed}
use skill_hive.Outbox.Invariant.{IsOutbox}
use skill_hive.Scope.{record_pull_cursor_in_transaction}
use skill_hive.Entitlement.{apply_entitlement}
use skill_hive.Pull.Apply.{
  EntitlementField, ChangeItem, ChangesPage, PageApplied, find_head, apply_upsert, apply_tombstone,
  apply_field, apply_change_entitlement, apply_change, apply_changes, no_counts, apply_changes_page,
}
use skill_hive.Pull.Preserves.{HasWork, Holds, Preserves, Preserves-trans}
use skill_hive.Pull.Changes.{
  same-Preserves, apply_upsert-Preserves, apply_tombstone-Preserves, apply_entitlement-Preserves,
}

module _ (s t : LocalStore) (keys : IsKeyed s.skills) (box : IsOutbox s.mutations) where
  apply_change-Preserves :
      (temp_dir : String) (change : ChangeItem) (counts counted : PageApplied)
      → apply_change temp_dir change counts s ≡ ok (counted, t)
      → Preserves s t
  unfolding apply_change
  apply_change-Preserves temp_dir change counts counted h =
      elim (Bool-cases (change.operation == "delete")) [
        | inl buried ↦
            let (u, done, h1) =
              >>=-eq-ok (apply_tombstone change s) _ (rw (apply_change, buried) at h) in
            apply_tombstone-Preserves s t keys box change (done ∙ ap ok (ok_parts h1).1)
        | inr upserted ↦
            let ((n, u), done, h1) =
              >>=-eq-ok (apply_upsert temp_dir change s) _ (rw (apply_change, upserted) at h) in
            apply_upsert-Preserves s t keys box temp_dir change n
              (done ∙ ap (λ x. ok (n, x)) (ok_parts h1).1)
      ]

  apply_field-Preserves :
      (parse : String → ℕ ⊎ String) (instant : ℕ) (change : ChangeItem) (field : EntitlementField)
      (n : ℕ)
      → apply_field parse instant change field s ≡ ok (n, t)
      → Preserves s t
  apply_field-Preserves parse instant change EntitlementField.absent n h =
      same-Preserves s t keys box (sym (ok_parts h).1)
  apply_field-Preserves parse instant change EntitlementField.null n h =
      same-Preserves s t keys box (sym (ok_parts h).1)
  apply_field-Preserves parse instant change (EntitlementField.malformed error) n h = cc
  apply_field-Preserves parse instant change (EntitlementField.decoded payload) n h =
      elim (Option-cases (find_head change.resource_id s.skills)) [
        | inl missing ↦
            same-Preserves s t keys box (sym (ok_parts (rw (apply_field, missing) at h)).1)
        | inr found ↦
            let (head, eh) = found in
            let ((r, u), done, h1) =
              >>=-eq-ok (apply_entitlement parse instant head.id payload s) _
                (rw (apply_field, eh) at h) in
            apply_entitlement-Preserves s t keys box parse instant head.id payload r
              (done ∙ ap (λ x. ok (r, x)) (ok_parts h1).1)
      ]

  apply_change_entitlement-Preserves :
      (parse : String → ℕ ⊎ String) (instant : ℕ) (change : ChangeItem) (n : ℕ)
      → apply_change_entitlement parse instant change s ≡ ok (n, t)
      → Preserves s t
  unfolding apply_change_entitlement
  apply_change_entitlement-Preserves parse instant change n h =
      elim (Bool-cases (change.operation == "delete")) [
        | inl buried ↦
            same-Preserves s t keys box
              (sym (ok_parts (rw (apply_change_entitlement, buried) at h)).1)
        | inr upserted ↦
            apply_field-Preserves parse instant change change.metadata.entitlement n
              (rw (apply_change_entitlement, upserted) at h)
      ]

module _ (parse : String → ℕ ⊎ String) (temp_dir : String) (instant : ℕ) where
  apply_changes-Preserves :
      (changes : List ChangeItem) (counts counted : PageApplied) (s t : LocalStore)
      → IsKeyed s.skills
      → IsOutbox s.mutations
      → apply_changes parse temp_dir instant changes counts s ≡ ok (counted, t)
      → Preserves s t
  unfolding apply_changes
  apply_changes-Preserves [] counts counted s t keys box h =
      same-Preserves s t keys box (sym (ok_parts h).1)
  apply_changes-Preserves (change ∷ changes) counts counted s t keys box h =
      let ((c1, u), done, h1) = >>=-eq-ok (apply_change temp_dir change counts s) _ h in
      let su = apply_change-Preserves s u keys box temp_dir change counts c1 done in
      let ((n, v), entitled, h2) =
        >>=-eq-ok (apply_change_entitlement parse instant change u) _ h1 in
      let uv =
        apply_change_entitlement-Preserves u v su.keyed su.boxed parse instant change n entitled in
      let sv = Preserves-trans s u v su uv in
      Preserves-trans s v t sv (apply_changes-Preserves changes _ counted v t sv.keyed sv.boxed h2)

-- The tables of skills and mutations, and the sync row, after the cursor of a page.
recorded_cursor :
    (now : ℕ) (cursor : String) (s t : LocalStore)
    → record_pull_cursor_in_transaction now cursor s ≡ ok t
    → (t.skills ≡ s.skills) × (t.mutations ≡ s.mutations) × (t.sync.server_cursor ≡ some cursor)
unfolding record_pull_cursor_in_transaction
recorded_cursor now cursor s t h =
    let h1 = >>-eq-ok (validate_non_empty "server_cursor" cursor) _ h in
    let e = sym (ok-injective h1) in
    (
      ap (λ (r : LocalStore). r.skills) e,
      ap (λ (r : LocalStore). r.mutations) e,
      ap (λ (r : LocalStore). r.sync.server_cursor) e,
    )

-- A pulled page that is applied to a store with unique skill keys and a sound outbox destroys no
-- unacknowledged work, whatever the server sent: every unacknowledged mutation is still in the
-- outbox as it was, and every skill that was dirty, uploading or in conflict with such a mutation
-- keeps its name, its workspace, its pin and its local snapshot, in one of these states. The skill
-- keys stay unique, the invariant of the outbox is kept, and the cursor is the one of the page.
pub pull_preserves_work :
    (parse : String → ℕ ⊎ String) (temp_dir : String) (instant now : ℕ) (page : ChangesPage)
    (s t : LocalStore) (applied : PageApplied)
    → apply_changes_page parse temp_dir instant now page s ≡ ok (applied, t)
    → IsKeyed s.skills
    → IsOutbox s.mutations
    → ((m : LocalMutation) → Memᴰ m s.mutations → is_acked m.state ≡ false → Memᴰ m t.mutations)
      × ((k : LocalSkill) → HasWork s k → Holds t k)
      × IsKeyed t.skills
      × IsOutbox t.mutations
      × (t.sync.server_cursor ≡ some page.next_cursor)
unfolding apply_changes_page
pull_preserves_work parse temp_dir instant now page s t applied h keys box =
    let ((counts, u), done, h1) =
      >>=-eq-ok (apply_changes parse temp_dir instant page.changes no_counts s) _ h in
    let (v, cursor, h2) =
      >>=-eq-ok (record_pull_cursor_in_transaction now page.next_cursor u) _ h1 in
    let kept =
      apply_changes-Preserves parse temp_dir instant page.changes no_counts counts s u keys box
        done in
    let (es, em, ec) = recorded_cursor now page.next_cursor u t (cursor ∙ ap ok (ok_parts h2).1) in
    (
      (λ m inside open_row. rw em (kept.unacked m inside open_row)),
      (λ k work. rw es (kept.held k work)),
      rw es kept.keyed,
      rw em kept.boxed,
      ec,
    )
