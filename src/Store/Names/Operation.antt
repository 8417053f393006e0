-- ===== src/Store/Names/Operation.antt =====
-- `MutationOperation` as the text of its column.
use skill_hive.Prelude.{String, ◌≡◌, refl, ◌==◌, arith, eq_iff, if◌then◌else◌}
use skill_hive.Store.States.{MutationOperation}
use skill_hive.Store.Failure.{Result, ok, err, invalid_persisted_state}

unfoldable pub as_db_str : MutationOperation → String
as_db_str MutationOperation.create = "create"
as_db_str MutationOperation.update = "update"
as_db_str MutationOperation.delete = "delete"

unfoldable pub from_db_str : String → Result MutationOperation
from_db_str value =
    if value == "create"
    then ok MutationOperation.create
    else if value == "update"
    then ok MutationOperation.update
    else if value == "delete"
    then ok MutationOperation.delete
    else err (invalid_persisted_state value)

pub from_db_str-as_db_str_lem :
    (state : MutationOperation) → from_db_str (as_db_str state) ≡ ok state
unfolding as_db_str from_db_str
from_db_str-as_db_str_lem MutationOperation.create = refl
from_db_str-as_db_str_lem MutationOperation.update = refl
from_db_str-as_db_str_lem MutationOperation.delete = refl

pub as_db_str-from_db_str_lem :
    (value : String) (state : MutationOperation)
    → from_db_str value ≡ ok state
    → value ≡ as_db_str state
unfolding as_db_str from_db_str
as_db_str-from_db_str_lem value state h =
    ground (arith, eq_iff value "create", eq_iff value "update", eq_iff value "delete")
