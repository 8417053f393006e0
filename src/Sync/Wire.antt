-- ===== src/Sync/Wire.antt =====
-- What goes over the wire in frontend/src-tauri/src/sync_push.rs and what the server answers. The server
-- and the clock are arguments of the cycle: answers may be anything, and may differ each time.
use skill_hive.Prelude.{ℕ, String, Bool, Option, none, some, ◌⊎◌, coalesce, ℤ}
use skill_hive.Store.{LocalMutation, MutationOperation, create, update, delete}
use skill_hive.Outcome.{MutationOutcome}
use skill_hive.Pull.{ChangesPage}

pub record MutationMetadata : Type 0 where
  pub name : String
  pub slug : String

-- Without `protocol_version`, which is 1.
pub record MutationRequest : Type 0 where
  pub device_id : String
  pub mutation_id : String
  pub operation : String
  pub client_skill_id : String
  pub remote_skill_id : Option String
  pub base_revision : Option ℤ
  pub package_manifest_hash : Option String
  pub metadata : Option MutationMetadata

pub record MutationResult : Type 0 where
  pub remote_skill_id : String
  pub revision : ℤ

pub record ConflictHead : Type 0 where
  pub revision : ℤ
  pub package_manifest_hash : Option String

pub record MutationResponse : Type 0 where
  pub mutation_id : String
  pub status : String
  pub result : Option MutationResult
  pub conflict : Option ConflictHead
  pub error_code : Option String
  pub message : Option String

abbrev response_remote_id : Option MutationResult → Option String
response_remote_id none = none
response_remote_id (some r) = some r.remote_skill_id

abbrev response_revision : Option MutationResult → Option ℤ
response_revision none = none
response_revision (some r) = some r.revision

abbrev head_revision : Option ConflictHead → Option ℤ
head_revision none = none
head_revision (some head) = some head.revision

abbrev head_package : Option ConflictHead → Option String
head_package none = none
head_package (some head) = head.package_manifest_hash

unfoldable pub into_outcome : MutationResponse → MutationOutcome
into_outcome r = record {
  mutation_id = r.mutation_id;
  status = r.status;
  remote_skill_id = response_remote_id r.result;
  revision = response_revision r.result;
  conflict_head_revision = head_revision r.conflict;
  conflict_package_manifest_hash = head_package r.conflict;
  error_code = r.error_code;
  message = r.message;
}

pub data SyncClientError : Type 0 where
  not_signed_in : SyncClientError
  credential_store : (text : String) → SyncClientError
  authentication : (code : String) (status : ℕ) → SyncClientError
  request : (code : String) (status : ℕ) → SyncClientError
  server : (code : Option String) (status : ℕ) → SyncClientError
  network : (text : String) → SyncClientError
  malformed_answer : (text : String) → SyncClientError

-- `SyncClientError::error_code`
unfoldable pub error_code : SyncClientError → Option String
error_code (authentication code status) = some code
error_code (request code status) = some code
error_code (server code status) = code
error_code e = none

pub data SyncCycleError : Type 0 where
  signed_out : SyncCycleError
  scope_mismatch : SyncCycleError
  unauthenticated : SyncClientError → SyncCycleError
  failed_at : (stage : String) → SyncCycleError

pub record Device : Type 0 where
  pub client_instance_id : String
  pub device_id : String
  pub user_id : String
  pub is_revoked : Bool

-- The client's side of the connection during one cycle, and the clock.
pub record Client : Type 0 where
  pub base_url : String
  pub drawn_id : String
  pub session : Option SyncClientError
  pub register_device : String → SyncClientError ⊎ Device
  pub upload_closure : String → String → Option String
  pub post_mutation : MutationRequest → SyncClientError ⊎ MutationResponse
  pub fetch_page : ℕ → Option String → String ⊎ ChangesPage
  pub download_blobs : ℕ → ChangesPage → String ⊎ ℕ
  pub error_text : SyncClientError → String
  pub parse_instant : String → ℕ ⊎ String
  pub temp_dir : String
  pub claims_at : ℕ
  pub learns_at : String → ℕ
  pub pushed_at : ℕ
  pub pulls_at : ℕ → ℕ
  pub instant_at : ℕ → ℕ
  pub expires_at : ℕ

abbrev operation_text : MutationOperation → String
operation_text create = "create"
operation_text update = "update"
operation_text delete = "delete"

abbrev hash_unless_deleted : MutationOperation → String → Option String
hash_unless_deleted delete hash = none
hash_unless_deleted op hash = some hash

-- `LocalMutation::package_manifest_hash_of`
abbrev pub package_manifest_hash_of : LocalMutation → Option String
package_manifest_hash_of m = hash_unless_deleted m.operation m.payload_hash

-- The request that `submit_mutation` sends.
unfoldable pub mutation_request :
    String → LocalMutation → Option String → Option MutationMetadata → MutationRequest
mutation_request device_id m skill_remote_id metadata = record {
  device_id = device_id;
  mutation_id = m.id;
  operation = operation_text m.operation;
  client_skill_id = m.skill_id;
  remote_skill_id = coalesce m.acknowledged_remote_id skill_remote_id;
  base_revision = m.base_revision;
  package_manifest_hash = package_manifest_hash_of m;
  metadata = metadata;
}
