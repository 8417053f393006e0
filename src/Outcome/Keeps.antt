-- ===== src/Outcome/Keeps.antt =====
-- Every outcome keeps the invariant of the outbox, the identity of every mutation and the local
-- snapshot of every skill.
use skill_hive.Prelude.{
  ℕ, String, ◌≡◌, refl, sym, ap, ◌∙◌, Bool, true, false, ◌⊎◌, inl, inr, Option, none, some, List,
  [], ◌∷◌, map, arith, eq_iff, find_where, find_where-some, update_where, Bool-cases, ℤ,
}
use skill_hive.Store.{
  LocalMutation, LocalStore, MutationOperation, MutationState, SkillSyncState, is_acked,
  is_in_flight, ok, >>=-eq-ok, ok_parts,
}
use skill_hive.Outbox.{has_id}
use skill_hive.Outbox.Invariant.{IsOutbox, IsTame, update-IsOutbox}
use skill_hive.Outcome.Statuses.{apply_status-cases, refusal_grounded}
use skill_hive.Outcome.Apply.{
  MutationOutcome, OutcomeApplied, mutation_row, apply_acked, apply_definitive_error,
  apply_transport_error, apply_status, apply_to_row, apply_mutation_outcome, acked_mutation,
  refused_mutation, retried_mutation, mutation_state_of, read_skill_state, backoff_seconds,
}

module _ (now : ℕ) (outcome : MutationOutcome) (s : LocalStore) where
  abbrev pub reported : LocalMutation → LocalStore → OutcomeApplied
  reported raw t = record {
    mutation_state = mutation_state_of outcome.status;
    skill_state = read_skill_state raw.skill_id t;
  }

  -- An outcome that was applied: to an acknowledged row, which changes nothing, or by its status.
  abbrev pub Applied : OutcomeApplied → LocalStore → Type 0
  Applied applied t =
      (raw : LocalMutation) × (find_where (has_id outcome.mutation_id) s.mutations ≡ some raw)
      × ((((is_acked raw.state ≡ true) × (t ≡ s))
            × (applied ≡ record {
              mutation_state = MutationState.acked;
              skill_state = read_skill_state raw.skill_id s;
            }))
          ⊎ (((is_acked raw.state ≡ false) × (apply_status now raw outcome s ≡ ok t))
              × (applied ≡ reported raw t)))

  row_found :
      (raw : LocalMutation)
      → mutation_row outcome.mutation_id s.mutations ≡ ok (some raw)
      → find_where (has_id outcome.mutation_id) s.mutations ≡ some raw
  unfolding mutation_row
  row_found raw h = ground arith

  apply_to_row-Applied :
      (row : Option LocalMutation) (applied : OutcomeApplied) (t : LocalStore)
      → mutation_row outcome.mutation_id s.mutations ≡ ok row
      → apply_to_row now outcome s row ≡ ok (applied, t)
      → Applied applied t
  unfolding apply_to_row
  apply_to_row-Applied none applied t read h = cc
  apply_to_row-Applied (some raw) applied t read h = elim (Bool-cases (is_acked raw.state)) [
    | inl acked ↦
        let (ea, et) = ok_parts (rw acked at h) in
        (raw, row_found raw read, inl ((acked, sym et), sym ea))
    | inr open_row ↦
        let (u, done, h') = >>=-eq-ok _ _ (rw open_row at h) in
        let (ea, et) = ok_parts h' in
        (raw, row_found raw read, inr ((open_row, done ∙ ap ok et), sym ea ∙ ap (reported raw) et))
  ]

  pub apply_mutation_outcome-Applied :
      (applied : OutcomeApplied) (t : LocalStore)
      → apply_mutation_outcome now outcome s ≡ ok (applied, t)
      → Applied applied t
  unfolding apply_mutation_outcome
  apply_mutation_outcome-Applied applied t h =
      let (row, read, h') = >>=-eq-ok _ _ h in apply_to_row-Applied row applied t read h'

-- An update of one mutation that keeps what identifies the local work, and takes it out of flight.
pub record IsPlain (f : LocalMutation → LocalMutation) : Type 0 where
  pub keeps_id : (m : LocalMutation) → (f m).id ≡ m.id
  pub keeps_skill : (m : LocalMutation) → (f m).skill_id ≡ m.skill_id
  pub keeps_sequence : (m : LocalMutation) → (f m).local_sequence ≡ m.local_sequence
  pub keeps_payload : (m : LocalMutation) → (f m).payload_hash ≡ m.payload_hash
  pub keeps_operation : (m : LocalMutation) → (f m).operation ≡ m.operation
  pub lands : (m : LocalMutation) → is_in_flight (f m).state ≡ false

abbrev pub Written : MutationOutcome → LocalStore → LocalStore → Type 0
Written outcome s t =
    (f : LocalMutation → LocalMutation) × (t.mutations
      ≡ update_where (has_id outcome.mutation_id) f s.mutations)
    × IsPlain f

module _ (now : ℕ) (raw : LocalMutation) (outcome : MutationOutcome) (s t : LocalStore) where
  acked-Written : (revision : ℤ) → apply_acked raw outcome revision s ≡ ok t → Written outcome s t
  unfolding apply_acked
  acked-Written revision h = (acked_mutation outcome revision, ground arith, plain)
    where
      plain : IsPlain (acked_mutation outcome revision)
      plain = record {
        keeps_id = λ m. refl;
        keeps_skill = λ m. refl;
        keeps_sequence = λ m. refl;
        keeps_payload = λ m. refl;
        keeps_operation = λ m. refl;
        lands = λ m. refl;
      }

  refused-Written :
      (state : MutationState) (skill_state : SkillSyncState)
      → is_in_flight state ≡ false
      → apply_definitive_error raw outcome state skill_state s ≡ ok t
      → Written outcome s t
  unfolding apply_definitive_error
  refused-Written state skill_state grounded h =
      (refused_mutation outcome state, ground arith, plain)
    where
      plain : IsPlain (refused_mutation outcome state)
      plain = record {
        keeps_id = λ m. refl;
        keeps_skill = λ m. refl;
        keeps_sequence = λ m. refl;
        keeps_payload = λ m. refl;
        keeps_operation = λ m. refl;
        lands = λ m. grounded;
      }

  retried-Written : apply_transport_error now raw outcome s ≡ t → Written outcome s t
  unfolding apply_transport_error
  retried-Written h =
      (retried_mutation now (backoff_seconds raw.retry_count) outcome, ground arith, plain)
    where
      plain : IsPlain (retried_mutation now (backoff_seconds raw.retry_count) outcome)
      plain = record {
        keeps_id = λ m. refl;
        keeps_skill = λ m. refl;
        keeps_sequence = λ m. refl;
        keeps_payload = λ m. refl;
        keeps_operation = λ m. refl;
        lands = λ m. refl;
      }

  pub apply_status-Written : apply_status now raw outcome s ≡ ok t → Written outcome s t
  apply_status-Written h = elim (apply_status-cases now raw outcome s t h) [
    | inl acknowledged ↦
        let (revision, status, known, h') = acknowledged in acked-Written revision h'
    | inr (inl refused) ↦
        let (state, skill_state, refusal, h') = refused in
        refused-Written state skill_state (refusal_grounded refusal).0 h'
    | inr (inr retried) ↦ retried-Written retried
  ]

module _ (now : ℕ) (outcome : MutationOutcome) (s t : LocalStore) (applied : OutcomeApplied)
    (done : apply_mutation_outcome now outcome s ≡ ok (applied, t)) where
  written-IsTame :
      (raw : LocalMutation) (f : LocalMutation → LocalMutation)
      → IsOutbox s.mutations
      → find_where (has_id outcome.mutation_id) s.mutations ≡ some raw
      → is_acked raw.state ≡ false
      → IsPlain f
      → IsTame (has_id outcome.mutation_id) f s.mutations
  written-IsTame raw f box found open_row plain = record {
    keeps_id = plain.keeps_id;
    keeps_skill = plain.keeps_skill;
    keeps_sequence = plain.keeps_sequence;
    keeps_acked = λ x mx hx acked.
        let (inside, same) = find_where-some (has_id outcome.mutation_id) s.mutations found in
        let e : x ≡ raw =
          box.keyed x raw mx inside
            (ground (arith, eq_iff x.id outcome.mutation_id, eq_iff raw.id outcome.mutation_id)) in
        cc (ap (λ (r : LocalMutation). is_acked r.state) e);
    flies_clear = λ x mx hx flying. cc (plain.lands x);
  }

  -- An outcome keeps the invariant of the outbox.
  pub outcome-IsOutbox : IsOutbox s.mutations → IsOutbox t.mutations
  outcome-IsOutbox box =
      let (raw, found, which) = apply_mutation_outcome-Applied now outcome s applied t done in
      elim which [
        | inl replay ↦ rw replay.0.1 box
        | inr fresh ↦
            let (f, e, plain) = apply_status-Written now raw outcome s t fresh.0.1 in
            rw e (
              update-IsOutbox (has_id outcome.mutation_id) f s.mutations
                (written-IsTame raw f box found fresh.0.0 plain) box)
      ]

abbrev pub Work : Type 0
Work = record {
  id : String;
  skill_id : String;
  sequence : ℕ;
  operation : MutationOperation;
  payload : String;
}

-- What identifies a mutation and its content.
abbrev pub work : LocalMutation → Work
work m = record {
  id = m.id;
  skill_id = m.skill_id;
  sequence = m.local_sequence;
  operation = m.operation;
  payload = m.payload_hash;
}

work-update :
    (p : LocalMutation → Bool) (f : LocalMutation → LocalMutation) (table : List LocalMutation)
    → IsPlain f
    → map work (update_where p f table) ≡ map work table
work-update p f [] plain = refl
work-update p f (m ∷ ms) plain = ground (
  arith,
  plain.keeps_id m,
  plain.keeps_skill m,
  plain.keeps_sequence m,
  plain.keeps_operation m,
  plain.keeps_payload m,
  work-update p f ms plain,
)

pub outcome_keeps_mutations :
    (now : ℕ) (outcome : MutationOutcome) (s t : LocalStore) (applied : OutcomeApplied)
    → apply_mutation_outcome now outcome s ≡ ok (applied, t)
    → map work t.mutations ≡ map work s.mutations
outcome_keeps_mutations now outcome s t applied done =
    let (raw, found, which) = apply_mutation_outcome-Applied now outcome s applied t done in
    elim which [
      | inl replay ↦ rw replay.0.1 refl
      | inr fresh ↦
          let (f, e, plain) = apply_status-Written now raw outcome s t fresh.0.1 in
          rw e (work-update (has_id outcome.mutation_id) f s.mutations plain)
    ]
