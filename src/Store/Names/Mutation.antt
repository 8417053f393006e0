-- ===== src/Store/Names/Mutation.antt =====
-- `MutationState` as the text of its column.
use skill_hive.Prelude.{String, ◌≡◌, refl, ◌==◌, arith, eq_iff, if◌then◌else◌}
use skill_hive.Store.States.{MutationState}
use skill_hive.Store.Failure.{Result, ok, err, invalid_persisted_state}

unfoldable pub as_db_str : MutationState → String
as_db_str MutationState.pending = "pending"
as_db_str MutationState.in_flight = "in_flight"
as_db_str MutationState.acked = "acked"
as_db_str MutationState.retryable_error = "retryable_error"
as_db_str MutationState.conflict = "conflict"
as_db_str MutationState.permission_denied = "permission_denied"
as_db_str MutationState.permanent_error = "permanent_error"

unfoldable pub from_db_str : String → Result MutationState
from_db_str value =
    if value == "pending"
    then ok MutationState.pending
    else if value == "in_flight"
    then ok MutationState.in_flight
    else if value == "acked"
    then ok MutationState.acked
    else if value == "retryable_error"
    then ok MutationState.retryable_error
    else if value == "conflict"
    then ok MutationState.conflict
    else if value == "permission_denied"
    then ok MutationState.permission_denied
    else if value == "permanent_error"
    then ok MutationState.permanent_error
    else err (invalid_persisted_state value)

pub from_db_str-as_db_str_lem : (state : MutationState) → from_db_str (as_db_str state) ≡ ok state
unfolding as_db_str from_db_str
from_db_str-as_db_str_lem MutationState.pending = refl
from_db_str-as_db_str_lem MutationState.in_flight = refl
from_db_str-as_db_str_lem MutationState.acked = refl
from_db_str-as_db_str_lem MutationState.retryable_error = refl
from_db_str-as_db_str_lem MutationState.conflict = refl
from_db_str-as_db_str_lem MutationState.permission_denied = refl
from_db_str-as_db_str_lem MutationState.permanent_error = refl

pub as_db_str-from_db_str_lem :
    (value : String) (state : MutationState)
    → from_db_str value ≡ ok state
    → value ≡ as_db_str state
unfolding as_db_str from_db_str
as_db_str-from_db_str_lem value state h = ground (
  arith,
  eq_iff value "pending",
  eq_iff value "in_flight",
  eq_iff value "acked",
  eq_iff value "retryable_error",
  eq_iff value "conflict",
  eq_iff value "permission_denied",
  eq_iff value "permanent_error",
)
