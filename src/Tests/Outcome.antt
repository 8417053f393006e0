-- ===== src/Tests/Outcome.antt =====
-- Runs of the operations of outcomes.rs.
use skill_hive.Prelude.{
  ◌+◌, ◌^◌, ◌≤◌, ◌≡◌, ◌⊎◌, refl, true, false, none, some, [], ◌∷◌, map, Memᴰ, find_where, arith,
  exists_where,
}
use skill_hive.Store.{LocalMutation, LocalStore, MutationState, SkillSyncState, is_queued, ok}
use skill_hive.Outbox.{has_id, is_dispatchable}
use skill_hive.Outcome.{
  MutationOutcome, OutcomeApplied, apply_mutation_outcome, mutation_row, apply_to_row, apply_status,
  apply_transport_error, read_skill_state, mutation_state_of, backoff_seconds, saturating_pow,
  retried_mutation, is_unacked_of,
}
use skill_hive.Outcome.Backoff.{backoff_schedule}
use skill_hive.Outcome.Keeps.{work}
use skill_hive.Outcome.Transitions.{local_copy, outcome_preserves_work}
use skill_hive.Outcome.Replay.{ack_idempotent, retry_backs_off}
use skill_hive.Outcome.Settled.{WasSynced, synced_is_settled}
use skill_hive.Tests.Fixtures.{
  flying_row, claimed_store, acked_outcome, acked_applied, acked_store, synced, ack_run,
}

abbrev lost_outcome : MutationOutcome
lost_outcome = record acked_outcome {
  status = "transport_error";
  revision = none;
  remote_skill_id = none;
}

abbrev lost_applied : OutcomeApplied
lost_applied = record {
  mutation_state = MutationState.retryable_error;
  skill_state = some SkillSyncState.dirty;
}

abbrev waiting_row : LocalMutation
waiting_row = retried_mutation 200 1 lost_outcome flying_row

abbrev waiting_store : LocalStore
waiting_store = record claimed_store { mutations = waiting_row ∷ [] }

lost_run : apply_mutation_outcome 200 lost_outcome claimed_store ≡ ok (lost_applied, waiting_store)
unfolding apply_mutation_outcome mutation_row apply_to_row apply_status apply_transport_error
    read_skill_state mutation_state_of backoff_seconds saturating_pow
lost_run = refl

backoff_schedule_example :
    (1 ≤ backoff_seconds 3)
    × (backoff_seconds 3 ≤ 64)
    × (3 ≤ 6 → backoff_seconds 3 ≡ 2 ^ 3)
    × (6 ≤ 3 → backoff_seconds 3 ≡ 64)
backoff_schedule_example = backoff_schedule 3

outcome_preserves_work_example :
    (map work acked_store.mutations ≡ map work claimed_store.mutations)
    × (map local_copy acked_store.skills ≡ map local_copy claimed_store.skills)
outcome_preserves_work_example =
    outcome_preserves_work 200 acked_outcome claimed_store acked_store acked_applied ack_run

ack_idempotent_example :
    apply_mutation_outcome 300 acked_outcome acked_store ≡ ok (acked_applied, acked_store)
ack_idempotent_example =
    ack_idempotent 200 300 acked_outcome claimed_store acked_store acked_applied refl ack_run

retry_backs_off_example :
    (m' : LocalMutation) × (find_where (has_id "mut-1") waiting_store.mutations ≡ some m')
    × (is_queued m'.state ≡ true)
    × (m'.retry_count ≡ flying_row.retry_count + 1)
    × (is_dispatchable 200 waiting_store.mutations m' ≡ false)
unfolding backoff_seconds saturating_pow
retry_backs_off_example =
    retry_backs_off 200 200 lost_outcome claimed_store waiting_store lost_applied flying_row refl
      lost_run refl refl (omega arith)

synced_is_settled_example :
    (exists_where (is_unacked_of "skill-1") acked_store.mutations ≡ false)
    ⊎ WasSynced claimed_store synced
synced_is_settled_example =
    synced_is_settled 200 acked_outcome claimed_store acked_store acked_applied synced ack_run
      (Memᴰ.head refl) refl
