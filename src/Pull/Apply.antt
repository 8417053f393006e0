-- ===== src/Pull/Apply.antt =====
-- The operations of pull_apply.rs. The lookup by `id = ?1 OR remote_id = ?1` searches the index of
-- the key before that of `remote_id`. `temp_dir` is `std::env::temp_dir()` as text; `now` is
-- CURRENT_TIMESTAMP and `instant` is `Utc::now()`.
use skill_hive.Prelude.{
  ℕ, suc, ◌+◌, String, ◌<>◌, Bool, true, false, not, ◌&&◌, ◌||◌, ◌⊎◌, Option, none, some, List, [],
  ◌∷◌, ◌++◌, ◌==◌, if◌then◌else◌, find_where, exists_where, update_where, delete_where, coalesce,
  or_default, ℤ, leb_ℤ,
}
use skill_hive.Store.{
  LocalSkill, LocalMutation, LocalStore, SkillSyncState, SkillDeployment, Result, ok, err, database,
  invalid_persisted_state, ◌>>=◌, ◌>>◌, reject_if,
}
use skill_hive.Outbox.{has_skill_id, is_negative?, is_text, takes_remote_id}
use skill_hive.Outcome.{is_unacked_of}
use skill_hive.Scope.{record_pull_cursor_in_transaction}
use skill_hive.Entitlement.{EntitlementPayload, apply_entitlement, is_lease_of}

-- `metadata.get("entitlement")`, and what `serde_json::from_value` makes of it.
pub data EntitlementField : Type 0 where
  absent : EntitlementField
  null : EntitlementField
  malformed : (error : String) → EntitlementField
  decoded : EntitlementPayload → EntitlementField

-- What the client reads of the JSON value: `metadata_string` of "name" and of "slug", and the lease.
pub record Metadata : Type 0 where
  pub name : Option String
  pub slug : Option String
  pub entitlement : EntitlementField

pub record ChangeItem : Type 0 where
  pub resource_id : String
  pub resource_revision : ℤ
  pub operation : String
  pub package_manifest_hash : Option String
  pub metadata : Metadata

pub record ChangesPage : Type 0 where
  pub changes : List ChangeItem
  pub next_cursor : String
  pub has_more : Bool

pub record PageApplied : Type 0 where
  pub upserts : ℕ
  pub tombstones : ℕ
  pub conflicts_detected : ℕ
  pub entitlements : ℕ

abbrev pub has_remote_id : String → LocalSkill → Bool
has_remote_id id skill = is_text skill.remote_id id

-- SELECT … WHERE id = ?1 OR remote_id = ?1
abbrev pub find_head : String → List LocalSkill → Option LocalSkill
find_head id skills =
    coalesce (find_where (has_skill_id id) skills) (find_where (has_remote_id id) skills)

-- `existing_revision.is_some_and(|revision| revision >= change.resource_revision)`
abbrev pub is_stale : ℤ → Option ℤ → Bool
is_stale revision none = false
is_stale revision (some existing) = leb_ℤ revision existing

-- Some("dirty") | Some("conflict") | Some("uploading")
abbrev pub is_local_work : SkillSyncState → Bool
is_local_work SkillSyncState.dirty = true
is_local_work SkillSyncState.conflict = true
is_local_work SkillSyncState.uploading = true
is_local_work _ = false

-- `hash_changed`
abbrev pub changes_hash : Option String → String → Bool
changes_hash none current = false
changes_hash (some hash) current = not (current == "") && not (current == hash)

abbrev pub pulled_state : ChangeItem → LocalSkill → SkillSyncState
pulled_state change skill =
    if is_local_work skill.sync_state
    then SkillSyncState.conflict
    else if changes_hash change.package_manifest_hash skill.current_blob_hash
    then SkillSyncState.remote_only
    else SkillSyncState.synced

abbrev pub inserted_remote : String → ChangeItem → LocalSkill
inserted_remote temp_dir change = record {
  id = change.resource_id;
  remote_id = some change.resource_id;
  name = or_default change.metadata.name change.resource_id;
  slug = or_default change.metadata.slug change.resource_id;
  workspace_path = temp_dir <> "\\" <> change.resource_id;
  current_blob_hash = or_default change.package_manifest_hash "";
  remote_blob_hash = change.package_manifest_hash;
  remote_revision = some change.resource_revision;
  sync_state = SkillSyncState.remote_only;
  pinned = false;
}

-- The DO UPDATE of the row `head` that was found.
abbrev pub pulled_skill : ChangeItem → LocalSkill → LocalSkill → LocalSkill
pulled_skill change head skill =
    let keep = is_local_work head.sync_state in
    record skill {
      remote_id = coalesce skill.remote_id (some head.id);
      remote_revision = some change.resource_revision;
      remote_blob_hash = coalesce change.package_manifest_hash skill.remote_blob_hash;
      current_blob_hash =
          if keep
          then skill.current_blob_hash
          else or_default change.package_manifest_hash skill.current_blob_hash;
      name = if keep then skill.name else or_default change.metadata.name skill.name;
      slug = if keep then skill.slug else or_default change.metadata.slug skill.slug;
      sync_state = pulled_state change head;
    }

-- The number of conflicts, and the store.
unfoldable pub apply_upsert : String → ChangeItem → LocalStore → Result (ℕ × LocalStore)
apply_upsert temp_dir change s = elim (find_head change.resource_id s.skills) [
  | none ↦ do
    reject_if (is_negative? (some change.resource_revision)) database
    ok (0, record s { skills = s.skills ++ (inserted_remote temp_dir change ∷ []) })
  | some head ↦ if is_stale change.resource_revision head.remote_revision then ok (0, s) else (do
    reject_if
        (is_negative? (some change.resource_revision)
          || exists_where (takes_remote_id head.id (coalesce head.remote_id (some head.id)))
              s.skills)
        database
    ok (
      if is_local_work head.sync_state then 1 else 0,
      record s { skills = update_where (has_skill_id head.id) (pulled_skill change head) s.skills },
    ))
]

abbrev pub buried_conflict : ℤ → LocalSkill → LocalSkill
buried_conflict revision skill = record skill {
  remote_revision = some revision;
  sync_state = SkillSyncState.conflict;
}

abbrev pub is_mutation_of : String → LocalMutation → Bool
is_mutation_of skill_id m = m.skill_id == skill_id

abbrev pub is_deployment_of : String → SkillDeployment → Bool
is_deployment_of skill_id row = row.skill_id == skill_id

-- DELETE FROM local_skills WHERE id = ?1, with the ON DELETE CASCADE of the other tables.
unfoldable pub delete_skill : String → LocalStore → LocalStore
delete_skill id s = record s {
  skills = delete_where (has_skill_id id) s.skills;
  mutations = delete_where (is_mutation_of id) s.mutations;
  entitlements = delete_where (is_lease_of id) s.entitlements;
  deployments = delete_where (is_deployment_of id) s.deployments;
}

unfoldable pub apply_tombstone : ChangeItem → LocalStore → Result LocalStore
apply_tombstone change s = elim (find_head change.resource_id s.skills) [
  | none ↦ ok s
  | some head ↦
      if is_stale change.resource_revision head.remote_revision
      then ok s
      else if exists_where (is_unacked_of head.id) s.mutations
      then (do
        reject_if (is_negative? (some change.resource_revision)) database
        ok (record s {
          skills =
              update_where (has_skill_id head.id) (buried_conflict change.resource_revision)
                s.skills;
        }))
      else ok (delete_skill head.id s)
]

abbrev pub apply_field :
    (String → ℕ ⊎ String) → ℕ → ChangeItem → EntitlementField → LocalStore → Result (ℕ × LocalStore)
apply_field parse instant change EntitlementField.absent s = ok (0, s)
apply_field parse instant change EntitlementField.null s = ok (0, s)
apply_field parse instant change (EntitlementField.malformed error) s = err (
    invalid_persisted_state
      ("change " <> change.resource_id <> " carries a malformed entitlement: " <> error))
apply_field parse instant change (EntitlementField.decoded payload) s =
    elim (find_head change.resource_id s.skills) [
      | none ↦ ok (0, s)
      | some head ↦ do
        applied ← apply_entitlement parse instant head.id payload s
        ok (1, applied.1)
    ]

unfoldable pub apply_change_entitlement :
    (String → ℕ ⊎ String) → ℕ → ChangeItem → LocalStore → Result (ℕ × LocalStore)
apply_change_entitlement parse instant change s =
    let applied = apply_field parse instant change change.metadata.entitlement s in
    if change.operation == "delete" then ok (0, s) else applied

-- The first half of the body of the loop, with the counters.
unfoldable pub apply_change :
    String → ChangeItem → PageApplied → LocalStore → Result (PageApplied × LocalStore)
apply_change temp_dir change counts s =
    if change.operation == "delete"
    then (do
      t ← apply_tombstone change s
      ok (record counts { tombstones = suc counts.tombstones }, t))
    else (do
      upserted ← apply_upsert temp_dir change s
      ok (
        record counts {
          conflicts_detected = counts.conflicts_detected + upserted.0;
          upserts = suc counts.upserts;
        },
        upserted.1,
      ))

module _ (parse : String → ℕ ⊎ String) (temp_dir : String) (instant : ℕ) where
  -- The loop over the changes of a page.
  unfoldable pub apply_changes :
      List ChangeItem → PageApplied → LocalStore → Result (PageApplied × LocalStore)
  apply_changes [] counts s = ok (counts, s)
  apply_changes (change ∷ changes) counts s = do
    applied ← apply_change temp_dir change counts s
    entitled ← apply_change_entitlement parse instant change applied.1
    apply_changes changes (record applied.0 { entitlements = applied.0.entitlements + entitled.0 })
        entitled.1

abbrev pub no_counts : PageApplied
no_counts = record { upserts = 0; tombstones = 0; conflicts_detected = 0; entitlements = 0 }

unfoldable pub apply_changes_page :
    (String → ℕ ⊎ String)
    → String
    → ℕ
    → ℕ
    → ChangesPage
    → LocalStore
    → Result (PageApplied × LocalStore)
apply_changes_page parse temp_dir instant now page s = do
  applied ← apply_changes parse temp_dir instant page.changes no_counts s
  t ← record_pull_cursor_in_transaction now page.next_cursor applied.1
  ok (applied.0, t)
