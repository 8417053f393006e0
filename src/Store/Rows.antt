-- ===== src/Store/Rows.antt =====
-- The rows of the tables, as the structs of local_store.rs hold them. Columns that only record
-- when a row was written (`updated_at`) are left out; instants are seconds.
use skill_hive.Prelude.{ℕ, String, Bool, Option, List, ℤ}
use skill_hive.Store.States.{SkillSyncState, MutationOperation, MutationState, DeploymentState}

-- A path, by what the client asks of it: `to_str()` and `is_absolute()`.
pub record PathBuf : Type 0 where
  pub to_str : Option String
  pub is_absolute : Bool

pub record CommitSkillEdit : Type 0 where
  pub skill_id : String
  pub remote_id : Option String
  pub name : String
  pub slug : String
  pub workspace_path : PathBuf
  pub blob_hash : String
  pub base_revision : Option ℤ
  pub operation : MutationOperation

-- A row of `local_skills`; its path is the text that the column holds.
pub record LocalSkill : Type 0 where
  pub id : String
  pub remote_id : Option String
  pub name : String
  pub slug : String
  pub workspace_path : String
  pub current_blob_hash : String
  pub remote_blob_hash : Option String
  pub remote_revision : Option ℤ
  pub sync_state : SkillSyncState
  pub pinned : Bool

-- A row of `local_mutations`. `created_at` is a column that the struct does not read.
pub record LocalMutation : Type 0 where
  pub id : String
  pub skill_id : String
  pub local_sequence : ℕ
  pub operation : MutationOperation
  pub base_revision : Option ℤ
  pub payload_hash : String
  pub state : MutationState
  pub retry_count : ℕ
  pub next_attempt_at : Option ℕ
  pub last_attempt_at : Option ℕ
  pub server_error_code : Option String
  pub server_error_details : Option String
  pub acknowledged_remote_revision : Option ℤ
  pub acknowledged_remote_id : Option String
  pub last_error : Option String
  pub created_at : ℕ

-- A row of `local_entitlements`.
pub record StoredEntitlement : Type 0 where
  pub skill_id : String
  pub lease : String
  pub permission_level : String
  pub offline_policy : String
  pub offline_ttl_hours : Option ℤ
  pub issued_at : Option ℕ
  pub expires_at : Option ℕ

-- A row of `skill_deployments`.
pub record SkillDeployment : Type 0 where
  pub skill_id : String
  pub agent_profile_id : String
  pub deployed_blob_hash : String
  pub target_path : String
  pub state : DeploymentState
  pub last_error : Option String

-- The single row of `local_sync_state`.
pub record LocalSyncState : Type 0 where
  pub protocol_version : ℕ
  pub client_instance_id : Option String
  pub device_id : Option String
  pub server_user_id : Option String
  pub server_url : Option String
  pub server_login_identity : Option String
  pub server_cursor : Option String
  pub last_successful_push_at : Option ℕ
  pub last_successful_pull_at : Option ℕ
  pub last_server_error : Option String

-- The database.
pub record LocalStore : Type 0 where
  pub skills : List LocalSkill
  pub mutations : List LocalMutation
  pub entitlements : List StoredEntitlement
  pub deployments : List SkillDeployment
  pub sync : LocalSyncState
