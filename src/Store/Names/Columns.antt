-- ===== src/Store/Names/Columns.antt =====
-- The texts of the four state columns.
use skill_hive.Prelude.{String, ◌≡◌, ◌∙◌, ap, ◌↔◌}
use skill_hive.Store.States.{SkillSyncState, MutationOperation, MutationState, DeploymentState}
use skill_hive.Store.Failure.{ok}
use skill_hive.Store.Names.SyncState
use skill_hive.Store.Names.Operation
use skill_hive.Store.Names.Mutation
use skill_hive.Store.Names.Deployment

-- For each of the four enumerations, a text is read as a value exactly if it is the column text of
-- that value.
pub column_texts :
    (value : String)
    → ((x : SkillSyncState)
        → (SyncState.from_db_str value ≡ ok x) ↔ (value ≡ SyncState.as_db_str x))
      × ((x : MutationOperation)
          → (Operation.from_db_str value ≡ ok x) ↔ (value ≡ Operation.as_db_str x))
      × ((x : MutationState) → (Mutation.from_db_str value ≡ ok x) ↔ (value ≡ Mutation.as_db_str x))
      × ((x : DeploymentState)
          → (Deployment.from_db_str value ≡ ok x) ↔ (value ≡ Deployment.as_db_str x))
column_texts value = (
  λ x. (
    SyncState.as_db_str-from_db_str_lem value x,
    λ e. ap SyncState.from_db_str e ∙ SyncState.from_db_str-as_db_str_lem x,
  ),
  λ x. (
    Operation.as_db_str-from_db_str_lem value x,
    λ e. ap Operation.from_db_str e ∙ Operation.from_db_str-as_db_str_lem x,
  ),
  λ x. (
    Mutation.as_db_str-from_db_str_lem value x,
    λ e. ap Mutation.from_db_str e ∙ Mutation.from_db_str-as_db_str_lem x,
  ),
  λ x. (
    Deployment.as_db_str-from_db_str_lem value x,
    λ e. ap Deployment.from_db_str e ∙ Deployment.from_db_str-as_db_str_lem x,
  ),
)
