-- ===== src/Store/Names/Deployment.antt =====
-- `DeploymentState` as the text of its column.
use skill_hive.Prelude.{String, ◌≡◌, refl, ◌==◌, arith, eq_iff, if◌then◌else◌}
use skill_hive.Store.States.{DeploymentState}
use skill_hive.Store.Failure.{Result, ok, err, invalid_persisted_state}

unfoldable pub as_db_str : DeploymentState → String
as_db_str DeploymentState.installing = "installing"
as_db_str DeploymentState.installed = "installed"
as_db_str DeploymentState.updating = "updating"
as_db_str DeploymentState.removing = "removing"
as_db_str DeploymentState.modified = "modified"
as_db_str DeploymentState.missing = "missing"
as_db_str DeploymentState.failed = "failed"
as_db_str DeploymentState.revoked = "revoked"

unfoldable pub from_db_str : String → Result DeploymentState
from_db_str value =
    if value == "installing"
    then ok DeploymentState.installing
    else if value == "installed"
    then ok DeploymentState.installed
    else if value == "updating"
    then ok DeploymentState.updating
    else if value == "removing"
    then ok DeploymentState.removing
    else if value == "modified"
    then ok DeploymentState.modified
    else if value == "missing"
    then ok DeploymentState.missing
    else if value == "failed"
    then ok DeploymentState.failed
    else if value == "revoked"
    then ok DeploymentState.revoked
    else err (invalid_persisted_state value)

pub from_db_str-as_db_str_lem : (state : DeploymentState) → from_db_str (as_db_str state) ≡ ok state
unfolding as_db_str from_db_str
from_db_str-as_db_str_lem DeploymentState.installing = refl
from_db_str-as_db_str_lem DeploymentState.installed = refl
from_db_str-as_db_str_lem DeploymentState.updating = refl
from_db_str-as_db_str_lem DeploymentState.removing = refl
from_db_str-as_db_str_lem DeploymentState.modified = refl
from_db_str-as_db_str_lem DeploymentState.missing = refl
from_db_str-as_db_str_lem DeploymentState.failed = refl
from_db_str-as_db_str_lem DeploymentState.revoked = refl

pub as_db_str-from_db_str_lem :
    (value : String) (state : DeploymentState)
    → from_db_str value ≡ ok state
    → value ≡ as_db_str state
unfolding as_db_str from_db_str
as_db_str-from_db_str_lem value state h = ground (
  arith,
  eq_iff value "installing",
  eq_iff value "installed",
  eq_iff value "updating",
  eq_iff value "removing",
  eq_iff value "modified",
  eq_iff value "missing",
  eq_iff value "failed",
  eq_iff value "revoked",
)
