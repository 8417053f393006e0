-- ===== src/Outcome/Replay.antt =====
-- An acknowledgement that is delivered again, and what a retry waits for.
use skill_hive.Prelude.{
  ℕ, ◌+◌, ◌<◌, String, ◌≡◌, refl, sym, ap, ◌∙◌, true, false, inl, inr, Option, some, List, arith,
  ◌==◌, eq_iff, find_where, update_where, ℤ, find_where-update_hit,
}
use skill_hive.Store.{
  is_queued, LocalMutation, LocalStore, MutationState, is_acked, ok, >>=-eq-ok, ok-injective,
}
use skill_hive.Outbox.{has_id, is_dispatchable, overflows_u32}
use skill_hive.Outcome.Apply.{
  MutationOutcome, OutcomeApplied, mutation_row, apply_acked, apply_transport_error, apply_status,
  apply_to_row, apply_mutation_outcome, acked_mutation, retried_mutation, mutation_state_of,
  read_skill_state, acked_revision, backoff_seconds,
}
use skill_hive.Outcome.Keeps.{apply_mutation_outcome-Applied}

-- The row as the transaction reads it: a row with a number out of range is refused.
fitting_row :
    (id : String) (table : List LocalMutation) (m : LocalMutation)
    → find_where (has_id id) table ≡ some m
    → overflows_u32 m ≡ false
    → mutation_row id table ≡ ok (some m)
unfolding mutation_row
fitting_row id table m found fits = ground arith

known_row :
    (id : String) (table : List LocalMutation) (m : LocalMutation) (row : Option LocalMutation)
    → find_where (has_id id) table ≡ some m
    → mutation_row id table ≡ ok row
    → mutation_row id table ≡ ok (some m)
unfolding mutation_row
known_row id table m row found h = ground arith

read_row_fits :
    (id : String) (table : List LocalMutation) (m : LocalMutation)
    → mutation_row id table ≡ ok (some m)
    → (find_where (has_id id) table ≡ some m) × (overflows_u32 m ≡ false)
unfolding mutation_row
read_row_fits id table m h = ground arith

replay_row :
    (now : ℕ) (outcome : MutationOutcome) (s : LocalStore) (m : LocalMutation)
    → mutation_row outcome.mutation_id s.mutations ≡ ok (some m)
    → is_acked m.state ≡ true
    → apply_mutation_outcome now outcome s
      ≡ ok (
        record {
          mutation_state = MutationState.acked;
          skill_state = read_skill_state m.skill_id s;
        },
        s,
      )
unfolding apply_mutation_outcome apply_to_row
replay_row now outcome s m read acked = rw (read, acked) refl

module _ (outcome : MutationOutcome) (s t : LocalStore) where
  acked_row :
      (raw : LocalMutation) (revision : ℤ)
      → find_where (has_id outcome.mutation_id) s.mutations ≡ some raw
      → apply_acked raw outcome revision s ≡ ok t
      → find_where (has_id outcome.mutation_id) t.mutations
        ≡ some (acked_mutation outcome revision raw)
  unfolding apply_acked
  acked_row raw revision found h =
      let e : t.mutations
          ≡ update_where (has_id outcome.mutation_id) (acked_mutation outcome revision)
              s.mutations =
        ground arith in
      rw e (
        find_where-update_hit (has_id outcome.mutation_id) (acked_mutation outcome revision)
          s.mutations raw (λ x. refl) found)

  acked_row_read :
      (raw : LocalMutation) (revision : ℤ)
      → mutation_row outcome.mutation_id s.mutations ≡ ok (some raw)
      → apply_acked raw outcome revision s ≡ ok t
      → mutation_row outcome.mutation_id t.mutations
        ≡ ok (some (acked_mutation outcome revision raw))
  acked_row_read raw revision read h =
      let (found, fits) = read_row_fits outcome.mutation_id s.mutations raw read in
      fitting_row outcome.mutation_id t.mutations (acked_mutation outcome revision raw)
        (acked_row raw revision found h) (ground arith)

-- The row that an applied outcome read.
module _ (now : ℕ) (outcome : MutationOutcome) (s t : LocalStore) (applied : OutcomeApplied)
    (done : apply_mutation_outcome now outcome s ≡ ok (applied, t)) where
  read_row :
      (raw : LocalMutation)
      → find_where (has_id outcome.mutation_id) s.mutations ≡ some raw
      → mutation_row outcome.mutation_id s.mutations ≡ ok (some raw)
  unfolding apply_mutation_outcome
  read_row raw found =
      let (row, read, h) = >>=-eq-ok _ _ done in
      known_row outcome.mutation_id s.mutations raw row found read

  acked_only :
      (raw : LocalMutation)
      → outcome.status ≡ "acked"
      → apply_status now raw outcome s ≡ ok t
      → (revision : ℤ) × (apply_acked raw outcome revision s ≡ ok t)
  unfolding apply_status
  acked_only raw status h =
      let e : (outcome.status == "acked") ≡ true = (eq_iff outcome.status "acked").1 status in
      let (revision, known, h') =
        >>=-eq-ok (acked_revision outcome) (λ x. apply_acked raw outcome x s) (rw e at h) in
      (revision, h')

-- An acknowledgement that was applied, and is delivered again at whatever time, reports the same
-- and changes nothing.
pub ack_idempotent :
    (now later : ℕ) (outcome : MutationOutcome) (s t : LocalStore) (applied : OutcomeApplied)
    → outcome.status ≡ "acked"
    → apply_mutation_outcome now outcome s ≡ ok (applied, t)
    → apply_mutation_outcome later outcome t ≡ ok (applied, t)
unfolding mutation_state_of
ack_idempotent now later outcome s t applied status done =
    let (raw, found, which) = apply_mutation_outcome-Applied now outcome s applied t done in
    let read = read_row now outcome s t applied done raw found in
    elim which [
      | inl replay ↦ rw (replay.0.1, replay.1) (replay_row later outcome s raw read replay.0.0)
      | inr fresh ↦
          let (revision, h) = acked_only now outcome s t applied done raw status fresh.0.1 in
          let e : applied ≡ record {
            mutation_state = MutationState.acked;
            skill_state = read_skill_state raw.skill_id t;
          } =
            rw (fresh.1, status) refl in
          rw e (
            replay_row later outcome t (acked_mutation outcome revision raw)
              (acked_row_read outcome s t raw revision read h) refl)
    ]

module _ (now : ℕ) (raw : LocalMutation) (outcome : MutationOutcome) (s t : LocalStore) where
  transport_only :
      outcome.status ≡ "transport_error"
      → apply_status now raw outcome s ≡ ok t
      → apply_transport_error now raw outcome s ≡ t
  unfolding apply_status apply_transport_error
  transport_only status h = ok-injective (rw status at h)

  retried_table :
      apply_transport_error now raw outcome s ≡ t
      → t.mutations
        ≡ update_where
            (has_id outcome.mutation_id)
            (retried_mutation now (backoff_seconds raw.retry_count) outcome)
            s.mutations
  unfolding apply_transport_error
  retried_table h = ap (λ (r : LocalStore). r.mutations) (sym h)

waits :
    (now later : ℕ) (outcome : MutationOutcome) (m : LocalMutation) (table : List LocalMutation)
    → later < now + backoff_seconds m.retry_count
    → is_dispatchable later table (retried_mutation now (backoff_seconds m.retry_count) outcome m)
      ≡ false
waits now later outcome m table early = ground arith

-- A transport error for a mutation that is not acknowledged leaves it queued with one retry more,
-- and it is not dispatchable again before the backoff of the retries that it had is over.
pub retry_backs_off :
    (now later : ℕ) (outcome : MutationOutcome) (s t : LocalStore) (applied : OutcomeApplied)
    (m : LocalMutation)
    → outcome.status ≡ "transport_error"
    → apply_mutation_outcome now outcome s ≡ ok (applied, t)
    → find_where (has_id outcome.mutation_id) s.mutations ≡ some m
    → is_acked m.state ≡ false
    → later < now + backoff_seconds m.retry_count
    → (m' : LocalMutation) × (find_where (has_id outcome.mutation_id) t.mutations ≡ some m')
      × (is_queued m'.state ≡ true)
      × (m'.retry_count ≡ m.retry_count + 1)
      × (is_dispatchable later t.mutations m' ≡ false)
retry_backs_off now later outcome s t applied m status done found open_row early =
    let (raw, found', which) = apply_mutation_outcome-Applied now outcome s applied t done in
    let same : raw ≡ m = cc in
    elim which [
      | inl replay ↦
          absurd
            (clash (sym replay.0.0 ∙ ap (λ (r : LocalMutation). is_acked r.state) same ∙ open_row))
      | inr fresh ↦
          let h = transport_only now raw outcome s t status fresh.0.1 in
          let f = retried_mutation now (backoff_seconds raw.retry_count) outcome in
          (
            f raw,
            rw (retried_table now raw outcome s t h) (
                find_where-update_hit (has_id outcome.mutation_id) f s.mutations raw (λ x. refl)
                  found'),
            refl,
            ap (λ (r : LocalMutation). r.retry_count + 1) same,
            waits now later outcome raw t.mutations (rw same early),
          )
    ]
  where
    clash : true ≡ false → ⊥
    clash h = cc
