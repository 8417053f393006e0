-- ===== src/Sync/Opens.antt =====
-- The steps of a cycle acknowledge a mutation only where the server says so.
use skill_hive.Prelude.{
  ℕ, String, ◌≡◌, ◌≢◌, refl, sym, ap, ◌∙◌, Bool, true, false, inl, inr, List, [], ◌∷◌, Memᴰ, arith,
  eq_iff, Bool-cases, update_where, mem-update_where, subst, ℤ,
}
use skill_hive.Store.{LocalMutation, LocalStore, is_acked, ok, ok_parts}
use skill_hive.Outbox.{
  has_id, claim_row, is_claimable, mark_in_flight, claim_each, is_releasable, requeue, release_each,
  release_in_flight_mutations,
}
use skill_hive.Outbox.Claims.{Claims, claim_each-cons}
use skill_hive.Outbox.Claimed.{claim_dispatchable-Claim}
use skill_hive.Outcome.{
  MutationOutcome, OutcomeApplied, apply_mutation_outcome, apply_acked, apply_definitive_error,
  apply_transport_error, acked_mutation, refused_mutation, retried_mutation, backoff_seconds,
  apply_status, transport_error,
}
use skill_hive.Outcome.Statuses.{apply_status-cases, refusal_grounded}
use skill_hive.Outcome.Keeps.{work, apply_mutation_outcome-Applied}
use skill_hive.Pull.Page.{pull_preserves_work}
use skill_hive.Scope.Trust.{ScopeStep, scope-SameRows}
use skill_hive.Journey.Keys.{expire_due-keeps}
use skill_hive.Journey.Reach.{instance_id-SameRows, IsSound, step-IsSound}
use skill_hive.Sync.Wire.{Client, MutationRequest, MutationResponse, into_outcome}
use skill_hive.Sync.Protocol.{
  IsLearned, answered_by_server, not_uploaded, lost, refused, CycleStep, Runs, CycleStep-StoreStep,
}

-- The outbox has the mutation, not acknowledged, with what identifies it and its content.
abbrev pub IsOpen : LocalMutation → List LocalMutation → Type 0
IsOpen m table =
    (m' : LocalMutation) × Memᴰ m' table × (work m' ≡ work m) × (is_acked m'.state ≡ false)

-- No answer of the server to any request names the mutation as acked.
abbrev pub NeverAcked : Client → String → Type 0
NeverAcked c id =
    (sent : MutationRequest) (response : MutationResponse)
    → c.post_mutation sent ≡ inr response
    → response.mutation_id ≡ id
    → response.status ≢ "acked"

module _ (m : LocalMutation) where
  update-IsOpen :
      (p : LocalMutation → Bool) (f : LocalMutation → LocalMutation) (table : List LocalMutation)
      → ((x : LocalMutation) → work (f x) ≡ work x)
      → ((x : LocalMutation) → p x ≡ true → x.id ≡ m.id → is_acked (f x).state ≡ false)
      → IsOpen m table
      → IsOpen m (update_where p f table)
  update-IsOpen p f table keeps lands (x, inside, same, open_row) = elim (Bool-cases (p x)) [
    | inl hit ↦ (
      f x,
      rw hit at (mem-update_where p f table inside),
      keeps x ∙ same,
      lands x hit (ap (λ w. w.id) same),
    )
    | inr miss ↦ (x, rw miss at (mem-update_where p f table inside), same, open_row)
  ]

  claim_each-IsOpen :
      (now : ℕ) (candidates table : List LocalMutation) (claimed : Claims)
      → claim_each now candidates table ≡ ok claimed
      → IsOpen m table
      → IsOpen m claimed.1
  claim_each-IsOpen now [] table claimed h open_row =
      let e : table ≡ claimed.1 = unfold claim_each in ground arith in subst (IsOpen m) e open_row
  claim_each-IsOpen now (c ∷ cs) table claimed h open_row =
      let (row, rest, reread, later, e) = claim_each-cons now c cs table claimed h in
      subst (λ (r : Claims). IsOpen m r.1) (sym e)
        (claim_each-IsOpen now cs (claim_row now c.id table) rest later (
          update-IsOpen (is_claimable c.id) (mark_in_flight now) table (λ x. refl)
            (λ x hit same. refl) open_row))

  release_each-IsOpen :
      (ids : List String) (table : List LocalMutation)
      → IsOpen m table
      → IsOpen m (release_each ids table).1
  unfolding release_each
  release_each-IsOpen [] table open_row = open_row
  release_each-IsOpen (id ∷ ids) table open_row =
      release_each-IsOpen ids (update_where (is_releasable id) requeue table)
        (update-IsOpen (is_releasable id) requeue table (λ x. refl) (λ x hit same. refl) open_row)

  module _ (now : ℕ) (raw : LocalMutation) (outcome : MutationOutcome) (s t : LocalStore)
      (held : IsOpen m s.mutations) where
    acked-IsOpen :
        (revision : ℤ)
        → outcome.mutation_id ≢ m.id
        → apply_acked raw outcome revision s ≡ ok t
        → IsOpen m t.mutations
    unfolding apply_acked
    acked-IsOpen revision other h =
        let e : t.mutations
            ≡ update_where (has_id outcome.mutation_id) (acked_mutation outcome revision)
                s.mutations =
          ground arith in
        subst (IsOpen m) (sym e) (
          update-IsOpen (has_id outcome.mutation_id) (acked_mutation outcome revision) s.mutations
            (λ x. refl)
            (λ x hit same. absurd (other (sym ((eq_iff x.id outcome.mutation_id).0 hit) ∙ same)))
            held)

    status-IsOpen :
        (outcome.mutation_id ≡ m.id → outcome.status ≢ "acked")
        → apply_status now raw outcome s ≡ ok t
        → IsOpen m t.mutations
    unfolding apply_definitive_error apply_transport_error
    status-IsOpen never h = elim (apply_status-cases now raw outcome s t h) [
      | inl (revision, status, known, h') ↦ acked-IsOpen revision (λ own. never own status) h'
      | inr (inl (state, skill_state, refusal, h')) ↦
          let e : t.mutations
              ≡ update_where (has_id outcome.mutation_id) (refused_mutation outcome state)
                  s.mutations =
            ground arith in
          subst (IsOpen m) (sym e) (
            update-IsOpen (has_id outcome.mutation_id) (refused_mutation outcome state) s.mutations
              (λ x. refl) (λ x hit same. (refusal_grounded refusal).1) held)
      | inr (inr h') ↦
          subst (λ (u : LocalStore). IsOpen m u.mutations) h'
            (update-IsOpen (has_id outcome.mutation_id)
              (retried_mutation now (backoff_seconds raw.retry_count) outcome) s.mutations
              (λ x. refl) (λ x hit same. refl) held)
    ]

  outcome-IsOpen :
      (now : ℕ) (outcome : MutationOutcome) (s t : LocalStore) (applied : OutcomeApplied)
      → apply_mutation_outcome now outcome s ≡ ok (applied, t)
      → (outcome.mutation_id ≡ m.id → outcome.status ≢ "acked")
      → IsOpen m s.mutations
      → IsOpen m t.mutations
  outcome-IsOpen now outcome s t applied h never held =
      let (raw, found, which) = apply_mutation_outcome-Applied now outcome s applied t h in
      elim which [
        | inl replay ↦ subst (λ (u : LocalStore). IsOpen m u.mutations) (sym replay.0.1) held
        | inr fresh ↦ status-IsOpen now raw outcome s t held never fresh.0.1
      ]

module _ (c : Client) (m : LocalMutation) (never : NeverAcked c m.id) where
  learned-never :
      (outcome : MutationOutcome)
      → IsLearned c outcome
      → outcome.mutation_id ≡ m.id
      → outcome.status ≢ "acked"
  unfolding into_outcome transport_error
  learned-never outcome (answered_by_server sent response h) own e = never sent response h own e
  learned-never outcome (not_uploaded id hash text h) own e = cc
  learned-never outcome (lost sent e code h login refusal) own f = cc
  learned-never outcome (refused sent e learned h refusal own status) same f = cc

  step-IsOpen :
      (s t : LocalStore) → CycleStep c s t → IsSound s → IsOpen m s.mutations → IsOpen m t.mutations
  unfolding release_in_flight_mutations
  step-IsOpen s t (CycleStep.names_client id h) sound held =
      rw ((instance_id-SameRows c.drawn_id s id t h).1) held
  step-IsOpen s t (CycleStep.binds_device instance_id identity device known valid same h) sound
        held =
      rw
        ((scope-SameRows s t (
          ScopeStep.bind_device c.base_url identity device.client_instance_id device.device_id
            device.user_id h)).1)
        held
  step-IsOpen s t (CycleStep.notes_push h) sound held =
      rw ((scope-SameRows s t (ScopeStep.note_push c.pushed_at h)).1) held
  step-IsOpen s t (CycleStep.notes_error text h) sound held =
      rw ((scope-SameRows s t (ScopeStep.note_error text h)).1) held
  step-IsOpen s t (CycleStep.claims rows h) sound held =
      let (candidates, claimed, read, done, er, et) =
        claim_dispatchable-Claim c.claims_at 49 s rows t h in
      subst (λ (u : LocalStore). IsOpen m u.mutations) (sym et)
        (claim_each-IsOpen m c.claims_at candidates s.mutations claimed done held)
  step-IsOpen s t (CycleStep.learns now outcome applied from h) sound held =
      outcome-IsOpen m now outcome s t applied h (learned-never outcome from) held
  step-IsOpen s t (CycleStep.releases ids n h) sound held =
      subst (λ (u : LocalStore). IsOpen m u.mutations) (ok_parts h).1
        (release_each-IsOpen m ids s.mutations held)
  step-IsOpen s t (CycleStep.pulls round cursor page applied e h) sound
        (x, inside, same, open_row) =
      (
        x,
        (pull_preserves_work c.parse_instant c.temp_dir (c.instant_at round) (c.pulls_at round) page
              s t applied h sound.0 sound.1).0
            x inside open_row,
        same,
        open_row,
      )
  step-IsOpen s t (CycleStep.expires ids h) sound held =
      rw ((expire_due-keeps c.expires_at ids s t h sound.0).1) held

  pub runs-IsOpen :
      (s t : LocalStore) → Runs c s t → IsSound s → IsOpen m s.mutations → IsOpen m t.mutations
  runs-IsOpen s t Runs.done sound held = held
  runs-IsOpen s u (Runs.after {t = t} step steps) sound held =
      runs-IsOpen t u steps (step-IsSound s t (CycleStep-StoreStep c s t step) sound)
        (step-IsOpen s t step sound held)
