-- ===== src/Tests/Pull.antt =====
-- A pulled page that meets a local edit.
use skill_hive.Prelude.{
  true, ℕ, String, ◌≡◌, ◌⊎◌, inr, sym, ◌∙◌, refl, false, none, some, [], ◌∷◌, Memᴰ, pos, is_blank,
  List,
}
use skill_hive.Store.{
  LocalSkill, LocalMutation, LocalStore, is_acked, ok, validate_non_empty, StoredEntitlement,
  SkillSyncState,
}
use skill_hive.Store.Keys.{IsKeyed}
use skill_hive.Outbox.Invariant.{IsOutbox}
use skill_hive.Scope.{advanced, record_pull_cursor_in_transaction}
use skill_hive.Pull.{
  EntitlementField, ChangeItem, ChangesPage, PageApplied, pulled_skill, inserted_remote,
  apply_upsert, apply_change_entitlement, apply_change, apply_changes, apply_changes_page,
}
use skill_hive.Pull.Preserves.{HasWork, Holds}
use skill_hive.Pull.Page.{pull_preserves_work}
use skill_hive.Pull.Replay.{upsert_idempotent}
use skill_hive.Entitlement.{
  with_state, is_past, is_expirable_state, expire_due_entitlements, entitlement_allows_offline_use,
}
use skill_hive.Entitlement.Expiry.{expiry_is_complete}
use skill_hive.Tests.Fixtures.{bound_sync, first_skill, edited_store, edited-IsOutbox}

-- A parser that rejects every text.
abbrev pub parse_example : String → ℕ ⊎ String
parse_example text = inr "not an instant"

abbrev own_change : ChangeItem
own_change = record {
  resource_id = "skill-1";
  resource_revision = pos 7;
  operation = "upsert";
  package_manifest_hash = some "hash-7";
  metadata = record {
    name = some "Remote notes";
    slug = none;
    entitlement = EntitlementField.absent;
  };
}

abbrev new_change : ChangeItem
new_change = record own_change { resource_id = "remote-2" }

abbrev pub page_example : ChangesPage
page_example = record {
  changes = own_change ∷ new_change ∷ [];
  next_cursor = "v1.B";
  has_more = false;
}

abbrev pub page_applied : PageApplied
page_applied = record { upserts = 2; tombstones = 0; conflicts_detected = 1; entitlements = 0 }

abbrev pub pulled_store : LocalStore
pulled_store = record edited_store {
  skills = pulled_skill own_change first_skill first_skill ∷ inserted_remote "/tmp" new_change ∷ [];
  sync = advanced 400 "v1.B" bound_sync;
}

pub pull_run :
    apply_changes_page parse_example "/tmp" 400 400 page_example edited_store
    ≡ ok (page_applied, pulled_store)
unfolding apply_changes_page apply_changes apply_change apply_upsert apply_change_entitlement
    record_pull_cursor_in_transaction validate_non_empty is_blank
pull_run = refl

edited_keys : IsKeyed edited_store.skills
edited_keys a b (Memᴰ.head e) (Memᴰ.head f) same = e ∙ sym f
edited_keys a b (Memᴰ.head e) (Memᴰ.tail rest) same = elim rest [ ]
edited_keys a b (Memᴰ.tail rest) inside same = elim rest [ ]

pull_preserves_work_example :
    ((m : LocalMutation)
      → Memᴰ m edited_store.mutations
      → is_acked m.state ≡ false
      → Memᴰ m pulled_store.mutations)
    × ((k : LocalSkill) → HasWork edited_store k → Holds pulled_store k)
    × IsKeyed pulled_store.skills
    × IsOutbox pulled_store.mutations
    × (pulled_store.sync.server_cursor ≡ some "v1.B")
pull_preserves_work_example =
    pull_preserves_work parse_example "/tmp" 400 400 page_example edited_store pulled_store
      page_applied pull_run edited_keys edited-IsOutbox

abbrev upserted_store : LocalStore
upserted_store = record edited_store {
  skills = pulled_skill own_change first_skill first_skill ∷ [];
}

upsert_run : apply_upsert "/tmp" own_change edited_store ≡ ok (1, upserted_store)
unfolding apply_upsert
upsert_run = refl

upsert_idempotent_example : apply_upsert "/tmp" own_change upserted_store ≡ ok (0, upserted_store)
upsert_idempotent_example =
    upsert_idempotent "/tmp" own_change 1 edited_store upserted_store upsert_run

abbrev due_lease : StoredEntitlement
due_lease = record {
  skill_id = "skill-1";
  lease = "signed";
  permission_level = "read";
  offline_policy = "ttl";
  offline_ttl_hours = none;
  issued_at = some 100;
  expires_at = some 150;
}

abbrev leased_store : LocalStore
leased_store = record edited_store {
  skills = with_state SkillSyncState.synced first_skill ∷ [];
  entitlements = due_lease ∷ [];
}

expiry_is_complete_example :
    (ids : List String) × (t : LocalStore) × (expire_due_entitlements 200 leased_store
      ≡ ok (ids, t))
    × ((row : StoredEntitlement)
        → Memᴰ row leased_store.entitlements
        → is_past 200 row.expires_at ≡ true
        → ((k : LocalSkill)
            → Memᴰ k t.skills
            → k.id ≡ row.skill_id
            → is_expirable_state k.sync_state ≡ false)
          × (entitlement_allows_offline_use (some row) 200 ≡ false))
expiry_is_complete_example = expiry_is_complete 200 leased_store
