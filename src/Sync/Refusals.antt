-- ===== src/Sync/Refusals.antt =====
-- Where a cycle stops without touching the store.
use skill_hive.Prelude.{
  ℕ, String, ◌≡◌, refl, arith, Option, none, some, List, ◌∷◌, map, ◌⊎◌, inl, inr,
}
use skill_hive.Store.{
  LocalStore, LocalStoreError, LocalMutation, MutationOperation, create, update, delete, ok, err,
}
use skill_hive.Outbox.{release_in_flight_mutations}
use skill_hive.Scope.{assert_server_scope}
use skill_hive.Sync.Wire.{
  Client, MutationRequest, SyncClientError, scope_mismatch, unauthenticated, not_signed_in,
  authentication, request, credential_store, server, network, malformed_answer, mutation_request,
}
use skill_hive.Sync.Protocol.{IsRefusedLogin}
use skill_hive.Sync.Push.{
  ◌>>=◌, next, finish, raise, look, stored, answered, attempt, uploaded, upload, submitted,
  dispatch_mutation, device_id_for, get_skill, remote_id_of, metadata_of, after_dispatch, push_each,
}
use skill_hive.Sync.Drain.{PullError}
use skill_hive.Sync.Cycle.{open_session, run_cycle}

module _ (c : Client) where
  -- The package of the mutation needs no upload, or is uploaded.
  abbrev pub IsUploaded : LocalMutation → Type 0
  IsUploaded m =
      (m.operation ≡ MutationOperation.delete) ⊎ (c.upload_closure m.id m.payload_hash ≡ none)

  -- The request that is sent for a mutation.
  abbrev pub request_for : LocalMutation → String → LocalStore → MutationRequest
  request_for m device_id s =
      mutation_request device_id m (remote_id_of (get_skill m.skill_id s))
        (metadata_of (get_skill m.skill_id s))

  upload-passed :
      (m : LocalMutation) (s : LocalStore) (op : MutationOperation)
      → (op ≡ MutationOperation.delete) ⊎ (c.upload_closure m.id m.payload_hash ≡ none)
      → upload c op m s ≡ (inr tt, s)
  unfolding upload uploaded finish
  upload-passed m s delete h = refl
  upload-passed m s create (inl e) = cc
  upload-passed m s create (inr e) = rw e refl
  upload-passed m s update (inl e) = cc
  upload-passed m s update (inr e) = rw e refl

  submitted-refused :
      (m : LocalMutation) (s : LocalStore) (e : SyncClientError)
      → IsRefusedLogin e
      → submitted c m (inl e) s ≡ (inl (unauthenticated e), s)
  unfolding submitted raise
  submitted-refused m s not_signed_in login = refl
  submitted-refused m s (authentication code status) login = refl
  submitted-refused m s (request code status) login = absurd login
  submitted-refused m s (credential_store text) login = absurd login
  submitted-refused m s (server code status) login = absurd login
  submitted-refused m s (network text) login = absurd login
  submitted-refused m s (malformed_answer text) login = absurd login

  device-known :
      (device : Option String) (device_id : String) (s : LocalStore)
      → device ≡ some device_id
      → device_id_for device s ≡ (inr device_id, s)
  unfolding device_id_for finish
  device-known none device_id s h = cc
  device-known (some other) device_id s h = ground arith

  module _ (m : LocalMutation) (s : LocalStore) (device_id : String) (e : SyncClientError)
      (sent : IsUploaded m) (known : s.sync.device_id ≡ some device_id)
      (answer : c.post_mutation (request_for m device_id s) ≡ inl e)
      (login : IsRefusedLogin e) where
    dispatch-refused : dispatch_mutation c m s ≡ (inl (unauthenticated e), s)
    unfolding dispatch_mutation ◌>>=◌ next look
    dispatch-refused =
        rw
          (
            upload-passed m s m.operation sent,
            device-known s.sync.device_id device_id s known,
            answer,
          )
          (submitted-refused m s e login)

    -- If the server refuses the login when a mutation is submitted, whose package is uploaded or needs
    -- no upload, then its dispatch fails with that error and leaves the store as it was, the mutation
    -- included. The loop over the claimed mutations stops there: it reports
    -- the error and no dispatched mutation, and does nothing to the store but release the later ones.
    pub refused_login_keeps_store :
        (tail : List LocalMutation)
        → (dispatch_mutation c m s ≡ (inl (unauthenticated e), s))
          × ((n : ℕ) × (t : LocalStore) × (release_in_flight_mutations (map (λ m. m.id) tail) s
                ≡ ok (n, t))
              × (push_each c (m ∷ tail) s ≡ (inr (0, some (unauthenticated e)), t)))
    unfolding push_each attempt after_dispatch ◌>>=◌ next stored finish release_in_flight_mutations
    refused_login_keeps_store tail = (dispatch-refused, (_, _, refl, rw dispatch-refused refl))

  -- A cycle against a server that the store is not bound to changes nothing: it stops with a scope
  -- mismatch, whatever the server would answer.
  pub foreign_server_changes_nothing :
      (error_text : PullError → String) (s : LocalStore) (e : LocalStoreError)
      → assert_server_scope c.base_url s ≡ err e
      → run_cycle c error_text s ≡ (inl scope_mismatch, s)
  unfolding run_cycle open_session ◌>>=◌ next look answered
  foreign_server_changes_nothing error_text s e h = rw h refl
