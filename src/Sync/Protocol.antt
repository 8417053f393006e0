-- ===== src/Sync/Protocol.antt =====
-- What a cycle may do to the store, independently of how frontend/src-tauri/src/sync.rs does it: which
-- operations, and what each outcome that it applies comes from.
use skill_hive.Prelude.{false, ℕ, String, ◌≡◌, inl, inr, Option, some, List}
use skill_hive.Store.{LocalMutation, LocalStore, ok}
use skill_hive.Outbox.{claim_dispatchable_mutations, release_in_flight_mutations}
use skill_hive.Outcome.{MutationOutcome, OutcomeApplied, apply_mutation_outcome, transport_error}
use skill_hive.Scope.{
  differs_from, record_authenticated_device, record_push_success, record_sync_error,
  ensure_client_instance_id,
}
use skill_hive.Scope.Trust.{ScopeStep}
use skill_hive.Entitlement.{expire_due_entitlements}
use skill_hive.Pull.{ChangesPage, PageApplied, apply_changes_page}
use skill_hive.Journey.Reach.{StoreStep}
use skill_hive.Sync.Wire.{
  Client, Device, MutationRequest, MutationResponse, SyncClientError, not_signed_in, authentication,
  request, into_outcome,
}

-- The server has not accepted the session.
abbrev pub IsRefusedLogin : SyncClientError → Type 0
IsRefusedLogin not_signed_in = Unit {0}
IsRefusedLogin (authentication code status) = Unit {0}
IsRefusedLogin e = ⊥

-- The server has answered that the request is wrong.
abbrev pub IsRefusedRequest : SyncClientError → Type 0
IsRefusedRequest (request code status) = Unit {0}
IsRefusedRequest e = ⊥

module _ (c : Client) where
  -- Where an outcome that a cycle applies comes from.
  pub data IsLearned : MutationOutcome → Type 0 where
    answered_by_server :
        (sent : MutationRequest) (response : MutationResponse)
        → c.post_mutation sent ≡ inr response
        → IsLearned (into_outcome response)
    not_uploaded :
        (id hash text : String)
        → c.upload_closure id hash ≡ some text
        → IsLearned (transport_error id "PACKAGE_UPLOAD_FAILED" text)
    lost :
        (sent : MutationRequest) (e : SyncClientError) (code : String)
        → c.post_mutation sent ≡ inl e
        → ¬ IsRefusedLogin e
        → ¬ IsRefusedRequest e
        → IsLearned (transport_error sent.mutation_id code (c.error_text e))
    refused :
        (sent : MutationRequest) (e : SyncClientError) (outcome : MutationOutcome)
        → c.post_mutation sent ≡ inl e
        → IsRefusedRequest e
        → outcome.mutation_id ≡ sent.mutation_id
        → outcome.status ≡ "validation_error"
        → IsLearned outcome

  pub data CycleStep : LocalStore → LocalStore → Type 0 where
    names_client :
        {s t : LocalStore} (id : String)
        → ensure_client_instance_id c.drawn_id s ≡ ok (id, t)
        → CycleStep s t
    binds_device :
        {s t : LocalStore} (instance_id identity : String) (device : Device)
        → c.register_device instance_id ≡ inr device
        → device.is_revoked ≡ false
        → differs_from device.user_id s.sync.server_user_id ≡ false
        → record_authenticated_device c.base_url identity device.client_instance_id device.device_id
            device.user_id s
          ≡ ok (tt, t)
        → CycleStep s t
    notes_push : {s t : LocalStore} → record_push_success c.pushed_at s ≡ ok (tt, t) → CycleStep s t
    notes_error :
        {s t : LocalStore} (text : String) → record_sync_error text s ≡ ok (tt, t) → CycleStep s t
    claims :
        {s t : LocalStore} (rows : List LocalMutation)
        → claim_dispatchable_mutations c.claims_at 50 s ≡ ok (rows, t)
        → CycleStep s t
    learns :
        {s t : LocalStore} (now : ℕ) (outcome : MutationOutcome) (applied : OutcomeApplied)
        → IsLearned outcome
        → apply_mutation_outcome now outcome s ≡ ok (applied, t)
        → CycleStep s t
    releases :
        {s t : LocalStore} (ids : List String) (n : ℕ)
        → release_in_flight_mutations ids s ≡ ok (n, t)
        → CycleStep s t
    pulls :
        {s t : LocalStore} (round : ℕ) (cursor : Option String) (page : ChangesPage)
        (applied : PageApplied)
        → c.fetch_page round cursor ≡ inr page
        → apply_changes_page c.parse_instant c.temp_dir
            (c.instant_at round)
            (c.pulls_at round)
            page
            s
          ≡ ok (applied, t)
        → CycleStep s t
    expires :
        {s t : LocalStore} (ids : List String)
        → expire_due_entitlements c.expires_at s ≡ ok (ids, t)
        → CycleStep s t

  -- Sequences of such steps.
  pub data Runs : LocalStore → LocalStore → Type 0 where
    done : {s : LocalStore} → Runs s s
    after : {s t u : LocalStore} → CycleStep s t → Runs t u → Runs s u

  pub Runs-trans : {s t u : LocalStore} → Runs s t → Runs t u → Runs s u
  Runs-trans Runs.done later = later
  Runs-trans (Runs.after step steps) later = Runs.after step (Runs-trans steps later)

  pub CycleStep-StoreStep : (s t : LocalStore) → CycleStep s t → StoreStep s t
  CycleStep-StoreStep s t (CycleStep.names_client id h) = StoreStep.names_client c.drawn_id id h
  CycleStep-StoreStep s t (CycleStep.binds_device instance_id identity device known valid same h) =
      StoreStep.binds (
        ScopeStep.bind_device c.base_url identity device.client_instance_id device.device_id
          device.user_id h)
  CycleStep-StoreStep s t (CycleStep.notes_push h) =
      StoreStep.binds (ScopeStep.note_push c.pushed_at h)
  CycleStep-StoreStep s t (CycleStep.notes_error text h) =
      StoreStep.binds (ScopeStep.note_error text h)
  CycleStep-StoreStep s t (CycleStep.claims rows h) = StoreStep.claims c.claims_at 50 rows h
  CycleStep-StoreStep s t (CycleStep.learns now outcome applied from h) =
      StoreStep.learns now outcome applied h
  CycleStep-StoreStep s t (CycleStep.releases ids n h) = StoreStep.releases ids n h
  CycleStep-StoreStep s t (CycleStep.pulls round cursor page applied e h) =
      StoreStep.pulls c.parse_instant c.temp_dir (c.instant_at round) (c.pulls_at round) page
        applied h
  CycleStep-StoreStep s t (CycleStep.expires ids h) = StoreStep.expires c.expires_at ids h
