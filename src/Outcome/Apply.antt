-- ===== src/Outcome/Apply.antt =====
-- The operations of outcomes.rs. `now` is CURRENT_TIMESTAMP, in seconds.
use skill_hive.Prelude.{
  ℕ, ◌+◌, ◌-◌, ◌^◌, min, String, ◌<>◌, Bool, false, not, ◌&&◌, ◌||◌, Option, none, some, List, ◌==◌,
  if◌then◌else◌, find_where, exists_where, update_where, coalesce, ℤ,
}
use skill_hive.Store.{
  LocalSkill, LocalMutation, LocalStore, MutationState, SkillSyncState, is_acked, is_clearable,
  Result, ok, err, database, invalid_persisted_state, outbox_claim_lost, ◌>>=◌,
}
use skill_hive.Outbox.{has_id, has_skill_id, is_negative?, overflows_u32}

pub record MutationOutcome : Type 0 where
  pub mutation_id : String
  pub status : String
  pub remote_skill_id : Option String
  pub revision : Option ℤ
  pub conflict_head_revision : Option ℤ
  pub conflict_package_manifest_hash : Option String
  pub error_code : Option String
  pub message : Option String

unfoldable pub transport_error : String → String → String → MutationOutcome
transport_error mutation_id error_code message = record {
  mutation_id = mutation_id;
  status = "transport_error";
  remote_skill_id = none;
  revision = none;
  conflict_head_revision = none;
  conflict_package_manifest_hash = none;
  error_code = some error_code;
  message = some message;
}

pub record OutcomeApplied : Type 0 where
  pub mutation_state : MutationState
  pub skill_state : Option SkillSyncState

-- The constants BACKOFF_BASE_SECS, BACKOFF_MAX_SECONDS and BACKOFF_MAX_EXPONENT.
abbrev pub backoff_base_secs : ℕ
backoff_base_secs = 2

abbrev pub backoff_max_seconds : ℕ
backoff_max_seconds = 64

abbrev pub backoff_max_exponent : ℕ
backoff_max_exponent = 6

-- `saturating_pow` of a `u64`.
unfoldable pub saturating_pow : ℕ → ℕ → ℕ
saturating_pow base exponent = min (base ^ exponent) (2 ^ 64 - 1)

unfoldable pub backoff_seconds : ℕ → ℕ
unfolding saturating_pow
backoff_seconds retry_count =
    min (saturating_pow backoff_base_secs (min retry_count backoff_max_exponent))
      backoff_max_seconds

unfoldable pub mutation_row : String → List LocalMutation → Result (Option LocalMutation)
mutation_row mutation_id table = elim (find_where (has_id mutation_id) table) [
  | none ↦ ok none
  | some m ↦ if overflows_u32 m then err database else ok (some m)
]

abbrev pub state_of : Option LocalSkill → Option SkillSyncState
state_of none = none
state_of (some skill) = some skill.sync_state

unfoldable pub read_skill_state : String → LocalStore → Option SkillSyncState
read_skill_state skill_id s = state_of (find_where (has_skill_id skill_id) s.skills)

abbrev pub acked_mutation : MutationOutcome → ℤ → LocalMutation → LocalMutation
acked_mutation outcome revision m = record m {
  state = MutationState.acked;
  acknowledged_remote_revision = some revision;
  acknowledged_remote_id = coalesce outcome.remote_skill_id m.acknowledged_remote_id;
  next_attempt_at = none;
  server_error_code = none;
  server_error_details = none;
  last_error = none;
}

abbrev pub acked_skill : MutationOutcome → ℤ → LocalSkill → LocalSkill
acked_skill outcome revision skill = record skill {
  remote_id = coalesce outcome.remote_skill_id skill.remote_id;
  remote_revision = some revision;
  remote_blob_hash = none;
}

abbrev pub is_unacked_of : String → LocalMutation → Bool
is_unacked_of skill_id m = m.skill_id == skill_id && not (is_acked m.state)

-- The WHERE clause of the last UPDATE of `apply_acked`.
abbrev pub is_settled : String → List LocalMutation → LocalSkill → Bool
is_settled skill_id table skill =
    skill.id == skill_id
    && is_clearable skill.sync_state
    && not (exists_where (is_unacked_of skill_id) table)

abbrev pub synced_skill : LocalSkill → LocalSkill
synced_skill skill = record skill { sync_state = SkillSyncState.synced }

-- The UNIQUE constraint on `remote_id`, for the value that the acknowledgement writes.
abbrev pub holds_remote_id : String → Option String → LocalSkill → Bool
holds_remote_id skill_id none skill = false
holds_remote_id skill_id (some remote_id) skill =
    not (skill.id == skill_id)
    && (elim skill.remote_id [ none ↦ false | some value ↦ value == remote_id ])

unfoldable pub apply_acked : LocalMutation → MutationOutcome → ℤ → LocalStore → Result LocalStore
apply_acked raw outcome revision s =
    let mutations =
      update_where (has_id outcome.mutation_id) (acked_mutation outcome revision) s.mutations in
    let skills = update_where (has_skill_id raw.skill_id) (acked_skill outcome revision) s.skills in
    if is_negative? (some revision)
      || (exists_where (has_skill_id raw.skill_id) s.skills
          && exists_where (holds_remote_id raw.skill_id outcome.remote_skill_id) s.skills)
    then err database
    else ok (record s {
      mutations = mutations;
      skills = update_where (is_settled raw.skill_id mutations) synced_skill skills;
    })

abbrev pub refused_mutation : MutationOutcome → MutationState → LocalMutation → LocalMutation
refused_mutation outcome state m = record m {
  state = state;
  next_attempt_at = none;
  server_error_code = outcome.error_code;
  server_error_details = outcome.message;
  last_error = outcome.message;
}

abbrev pub refused_remote_hash : SkillSyncState → Option String → Option String → Option String
refused_remote_hash SkillSyncState.conflict remote current = coalesce remote current
refused_remote_hash _ remote current = current

abbrev pub refused_skill : MutationOutcome → SkillSyncState → LocalSkill → LocalSkill
refused_skill outcome state skill = record skill {
  remote_revision = coalesce outcome.conflict_head_revision skill.remote_revision;
  remote_blob_hash =
      refused_remote_hash state outcome.conflict_package_manifest_hash skill.remote_blob_hash;
  sync_state = state;
}

unfoldable pub apply_definitive_error :
    LocalMutation
    → MutationOutcome
    → MutationState
    → SkillSyncState
    → LocalStore
    → Result LocalStore
apply_definitive_error raw outcome mutation_state skill_state s =
    if exists_where (has_skill_id raw.skill_id) s.skills
      && is_negative? outcome.conflict_head_revision
    then err database
    else ok (record s {
      mutations =
          update_where (has_id outcome.mutation_id) (refused_mutation outcome mutation_state)
            s.mutations;
      skills =
          update_where (has_skill_id raw.skill_id) (refused_skill outcome skill_state) s.skills;
    })

abbrev pub retried_mutation : ℕ → ℕ → MutationOutcome → LocalMutation → LocalMutation
retried_mutation now seconds outcome m = record m {
  state = MutationState.retryable_error;
  retry_count = m.retry_count + 1;
  next_attempt_at = some (now + seconds);
  server_error_code = outcome.error_code;
  server_error_details = outcome.message;
  last_error = outcome.message;
}

unfoldable pub apply_transport_error : ℕ → LocalMutation → MutationOutcome → LocalStore → LocalStore
apply_transport_error now raw outcome s = record s {
  mutations =
      update_where (has_id outcome.mutation_id)
        (retried_mutation now (backoff_seconds raw.retry_count) outcome) s.mutations;
}

-- `outcome.revision.ok_or_else(…)`
abbrev pub acked_revision : MutationOutcome → Result ℤ
acked_revision outcome = elim outcome.revision [
  | none ↦
      err (
        invalid_persisted_state ("acked outcome for " <> outcome.mutation_id <> " has no revision"))
  | some revision ↦ ok revision
]

-- The `match` on `outcome.status`.
unfoldable pub apply_status : ℕ → LocalMutation → MutationOutcome → LocalStore → Result LocalStore
apply_status now raw outcome s =
    if outcome.status == "acked"
    then (do revision ← acked_revision outcome; apply_acked raw outcome revision s)
    else if outcome.status == "conflict"
    then apply_definitive_error raw outcome MutationState.conflict SkillSyncState.conflict s
    else if outcome.status == "permission_denied"
    then apply_definitive_error raw outcome MutationState.permission_denied
        SkillSyncState.access_revoked s
    else if outcome.status == "validation_error"
    then apply_definitive_error raw outcome MutationState.permanent_error SkillSyncState.sync_error
        s
    else if outcome.status == "transport_error"
    then ok (apply_transport_error now raw outcome s)
    else err (
        invalid_persisted_state (
          "unknown mutation outcome status '" <> outcome.status <> "' for " <> outcome.mutation_id))

-- `mutation_state_str`, read back by `MutationState::from_db_str`.
unfoldable pub mutation_state_of : String → MutationState
mutation_state_of status =
    if status == "acked"
    then MutationState.acked
    else if status == "conflict"
    then MutationState.conflict
    else if status == "permission_denied"
    then MutationState.permission_denied
    else if status == "validation_error"
    then MutationState.permanent_error
    else MutationState.retryable_error

-- The transaction once the row is read.
unfoldable pub apply_to_row :
    ℕ → MutationOutcome → LocalStore → Option LocalMutation → Result (OutcomeApplied × LocalStore)
apply_to_row now outcome s none = err (outbox_claim_lost outcome.mutation_id)
apply_to_row now outcome s (some raw) =
    if is_acked raw.state
    then ok (
      record {
        mutation_state = MutationState.acked;
        skill_state = read_skill_state raw.skill_id s;
      },
      s,
    )
    else do
      t ← apply_status now raw outcome s
      ok (
        record {
          mutation_state = mutation_state_of outcome.status;
          skill_state = read_skill_state raw.skill_id t;
        },
        t,
      )

unfoldable pub apply_mutation_outcome :
    ℕ → MutationOutcome → LocalStore → Result (OutcomeApplied × LocalStore)
apply_mutation_outcome now outcome s = do
  row ← mutation_row outcome.mutation_id s.mutations
  apply_to_row now outcome s row
