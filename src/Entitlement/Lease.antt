-- ===== src/Entitlement/Lease.antt =====
-- The operations of entitlements.rs. Instants are chrono's, as numbers; the texts of `to_rfc3339`
-- that the table holds are kept as the instants that they denote. `parse` is
-- `DateTime::parse_from_rfc3339`, with the text of its error.
use skill_hive.Prelude.{
  ℕ, String, ◌<>◌, Bool, true, false, not, ◌&&◌, ◌||◌, ◌⊎◌, inl, inr, Option, none, some, List, [],
  ◌∷◌, ◌++◌, map, ◌==◌, ltb, leb, if◌then◌else◌, find_where, exists_where, select_where,
  update_where, is_some, ℤ, pos, leb_ℤ,
}
use skill_hive.Store.{
  LocalSkill, LocalStore, SkillSyncState, StoredEntitlement, SkillDeployment, DeploymentState,
  Result, ok, err, database, invalid_persisted_state, ◌>>=◌, ◌>>◌, reject_if,
}
use skill_hive.Outbox.{has_skill_id}

pub record EntitlementPayload : Type 0 where
  pub lease : String
  pub permission_level : String
  pub offline_policy : String
  pub offline_ttl_hours : Option ℤ
  pub issued_at : Option String
  pub expires_at : Option String

pub record EntitlementReconciled : Type 0 where
  pub skill_id : String
  pub offline_policy : String
  pub expired : Bool

-- The value of an instant, or the rejection of the payload.
unfoldable pub parse_instant :
    (String → ℕ ⊎ String) → String → String → Option String → Result (Option ℕ)
parse_instant parse skill_id field none = ok none
parse_instant parse skill_id field (some text) = elim (parse text) [
  | inl instant ↦ ok (some instant)
  | inr error ↦ err (
      invalid_persisted_state
        ("entitlement for " <> skill_id <> " carries a malformed " <> field <> ": " <> error))
]

-- `expires_at.is_some_and(|limit| limit <= now)`
abbrev pub is_past : ℕ → Option ℕ → Bool
is_past now none = false
is_past now (some limit) = leb limit now

abbrev pub is_policy : String → Bool
is_policy policy = policy == "unlimited" || policy == "ttl" || policy == "disabled"

abbrev pub is_ttl : Option ℤ → Bool
is_ttl none = true
is_ttl (some hours) = leb_ℤ (pos 1) hours

abbrev pub is_lease_of : String → StoredEntitlement → Bool
is_lease_of skill_id row = row.skill_id == skill_id

-- INSERT … ON CONFLICT(skill_id) DO UPDATE
abbrev pub upsert_lease : StoredEntitlement → List StoredEntitlement → List StoredEntitlement
upsert_lease row table =
    if exists_where (is_lease_of row.skill_id) table
    then update_where (is_lease_of row.skill_id) (λ old. row) table
    else table ++ (row ∷ [])

abbrev pub stored_lease : String → EntitlementPayload → Option ℕ → Option ℕ → StoredEntitlement
stored_lease skill_id payload issued_at expires_at = record {
  skill_id = skill_id;
  lease = payload.lease;
  permission_level = payload.permission_level;
  offline_policy = payload.offline_policy;
  offline_ttl_hours = payload.offline_ttl_hours;
  issued_at = issued_at;
  expires_at = expires_at;
}

-- sync_state IN ('remote_only', 'synced')
abbrev pub is_settled_state : SkillSyncState → Bool
is_settled_state SkillSyncState.remote_only = true
is_settled_state SkillSyncState.synced = true
is_settled_state _ = false

abbrev pub is_revoked : SkillSyncState → Bool
is_revoked SkillSyncState.access_revoked = true
is_revoked _ = false

abbrev pub is_revocable : String → LocalSkill → Bool
is_revocable skill_id skill = skill.id == skill_id && is_settled_state skill.sync_state

abbrev pub is_restorable : String → LocalSkill → Bool
is_restorable skill_id skill =
    skill.id == skill_id && is_revoked skill.sync_state && is_some skill.remote_id

abbrev pub with_state : SkillSyncState → LocalSkill → LocalSkill
with_state state skill = record skill { sync_state = state }

-- The two UPDATEs of `apply_entitlement`.
abbrev pub reconcile_skills : String → Bool → List LocalSkill → List LocalSkill
reconcile_skills skill_id expired skills =
    if expired
    then update_where (is_revocable skill_id) (with_state SkillSyncState.access_revoked) skills
    else update_where (is_restorable skill_id) (with_state SkillSyncState.remote_only) skills

unfoldable pub apply_entitlement :
    (String → ℕ ⊎ String)
    → ℕ
    → String
    → EntitlementPayload
    → LocalStore
    → Result (EntitlementReconciled × LocalStore)
apply_entitlement parse now skill_id payload s = do
  expires_at ← parse_instant parse skill_id "expires_at" payload.expires_at
  issued_at ← parse_instant parse skill_id "issued_at" payload.issued_at
  let expired = is_past now expires_at
  reject_if
      (not (is_policy payload.offline_policy)
        || not (is_ttl payload.offline_ttl_hours)
        || not (exists_where (has_skill_id skill_id) s.skills))
      database
  ok (
    record { skill_id = skill_id; offline_policy = payload.offline_policy; expired = expired },
    record s {
      entitlements =
          upsert_lease (stored_lease skill_id payload issued_at expires_at) s.entitlements;
      skills = reconcile_skills skill_id expired s.skills;
    },
  )

-- sync_state IN ('remote_only', 'synced', 'sync_error')
abbrev pub is_expirable_state : SkillSyncState → Bool
is_expirable_state SkillSyncState.remote_only = true
is_expirable_state SkillSyncState.synced = true
is_expirable_state SkillSyncState.sync_error = true
is_expirable_state _ = false

-- The join of `expire_due_entitlements`: the lease is due, and its skill can expire.
abbrev pub is_due_lease : ℕ → List LocalSkill → StoredEntitlement → Bool
is_due_lease now skills row =
    is_past now row.expires_at
    && exists_where (λ skill. skill.id == row.skill_id && is_expirable_state skill.sync_state)
        skills

abbrev pub is_expirable : String → LocalSkill → Bool
is_expirable skill_id skill = skill.id == skill_id && is_expirable_state skill.sync_state

-- state IN ('installing', 'installed', 'updating', 'modified')
abbrev pub is_active_state : DeploymentState → Bool
is_active_state DeploymentState.installing = true
is_active_state DeploymentState.installed = true
is_active_state DeploymentState.updating = true
is_active_state DeploymentState.modified = true
is_active_state _ = false

abbrev pub is_active_of : String → SkillDeployment → Bool
is_active_of skill_id row = row.skill_id == skill_id && is_active_state row.state

abbrev pub revoked_deployment : SkillDeployment → SkillDeployment
revoked_deployment row = record row {
  state = DeploymentState.revoked;
  last_error = some "entitlement expired; deployment revoked by offline policy";
}

-- The body of the loop over the due skills.
abbrev pub expire_skill : String → LocalStore → LocalStore
expire_skill skill_id s = record s {
  skills = update_where (is_expirable skill_id) (with_state SkillSyncState.access_revoked) s.skills;
  deployments = update_where (is_active_of skill_id) revoked_deployment s.deployments;
}

abbrev pub expire_skills : List String → LocalStore → LocalStore
expire_skills [] s = s
expire_skills (skill_id ∷ skill_ids) s = expire_skills skill_ids (expire_skill skill_id s)

abbrev pub due_skills : ℕ → LocalStore → List String
due_skills now s =
    map (λ row. row.skill_id) (select_where (is_due_lease now s.skills) s.entitlements)

unfoldable pub expire_due_entitlements : ℕ → LocalStore → Result (List String × LocalStore)
expire_due_entitlements now s = ok (due_skills now s, expire_skills (due_skills now s) s)

unfoldable pub get_entitlement : String → LocalStore → Result (Option StoredEntitlement)
get_entitlement skill_id s = ok (find_where (is_lease_of skill_id) s.entitlements)

unfoldable pub entitlement_allows_offline_use : Option StoredEntitlement → ℕ → Bool
entitlement_allows_offline_use none now = false
entitlement_allows_offline_use (some lease) now = elim lease.expires_at [
  | none ↦ false
  | some limit ↦ ltb now limit
]
