-- ===== src/Store/Names/SyncState.antt =====
-- `SkillSyncState` as the text of its column.
use skill_hive.Prelude.{String, ◌≡◌, refl, ◌==◌, arith, eq_iff, if◌then◌else◌}
use skill_hive.Store.States.{SkillSyncState}
use skill_hive.Store.Failure.{Result, ok, err, invalid_persisted_state}

unfoldable pub as_db_str : SkillSyncState → String
as_db_str SkillSyncState.remote_only = "remote_only"
as_db_str SkillSyncState.synced = "synced"
as_db_str SkillSyncState.dirty = "dirty"
as_db_str SkillSyncState.uploading = "uploading"
as_db_str SkillSyncState.conflict = "conflict"
as_db_str SkillSyncState.sync_error = "sync_error"
as_db_str SkillSyncState.access_revoked = "access_revoked"
as_db_str SkillSyncState.corrupted = "corrupted"

unfoldable pub from_db_str : String → Result SkillSyncState
from_db_str value =
    if value == "remote_only"
    then ok SkillSyncState.remote_only
    else if value == "synced"
    then ok SkillSyncState.synced
    else if value == "dirty"
    then ok SkillSyncState.dirty
    else if value == "uploading"
    then ok SkillSyncState.uploading
    else if value == "conflict"
    then ok SkillSyncState.conflict
    else if value == "sync_error"
    then ok SkillSyncState.sync_error
    else if value == "access_revoked"
    then ok SkillSyncState.access_revoked
    else if value == "corrupted"
    then ok SkillSyncState.corrupted
    else err (invalid_persisted_state value)

pub from_db_str-as_db_str_lem : (state : SkillSyncState) → from_db_str (as_db_str state) ≡ ok state
unfolding as_db_str from_db_str
from_db_str-as_db_str_lem SkillSyncState.remote_only = refl
from_db_str-as_db_str_lem SkillSyncState.synced = refl
from_db_str-as_db_str_lem SkillSyncState.dirty = refl
from_db_str-as_db_str_lem SkillSyncState.uploading = refl
from_db_str-as_db_str_lem SkillSyncState.conflict = refl
from_db_str-as_db_str_lem SkillSyncState.sync_error = refl
from_db_str-as_db_str_lem SkillSyncState.access_revoked = refl
from_db_str-as_db_str_lem SkillSyncState.corrupted = refl

pub as_db_str-from_db_str_lem :
    (value : String) (state : SkillSyncState)
    → from_db_str value ≡ ok state
    → value ≡ as_db_str state
unfolding as_db_str from_db_str
as_db_str-from_db_str_lem value state h = ground (
  arith,
  eq_iff value "remote_only",
  eq_iff value "synced",
  eq_iff value "dirty",
  eq_iff value "uploading",
  eq_iff value "conflict",
  eq_iff value "sync_error",
  eq_iff value "access_revoked",
  eq_iff value "corrupted",
)
