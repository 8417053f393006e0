-- ===== src/Sync/Push.antt =====
-- The push half of a cycle in frontend/src-tauri/src/sync.rs: what is done for each claimed mutation.
use skill_hive.Prelude.{
  ℕ, ◌+◌, String, Bool, true, false, Option, none, some, List, [], ◌∷◌, map, ◌⊎◌, inl, inr,
  find_where, or_default,
}
use skill_hive.Store.{
  LocalStore, LocalSkill, LocalMutation, LocalStoreError, MutationOperation, create, update, delete,
  Result, ok, err,
}
use skill_hive.Outbox.{has_skill_id, release_in_flight_mutations}
use skill_hive.Outcome.{MutationOutcome, OutcomeApplied, apply_mutation_outcome, transport_error}
use skill_hive.Sync.Wire.{
  Client, MutationMetadata, MutationResponse, SyncClientError, SyncCycleError, not_signed_in,
  authentication, request, credential_store, server, network, malformed_answer, unauthenticated,
  failed_at, into_outcome, mutation_request, error_code,
}

-- A step reads and writes the store. Each operation of the store is a transaction, so what was
-- written before a failure stays.
abbrev pub Step : Type 0 → Type 0 → Type 0
Step E A = LocalStore → (E ⊎ A) × LocalStore

module _ {E : Type 0} where
  unfoldable pub next :
      {A B : Type 0} → (A → Step E B) → (E ⊎ A) × LocalStore → (E ⊎ B) × LocalStore
  next rest (inl e, s) = (inl e, s)
  next rest (inr a, s) = rest a s

  infixl 5 ◌>>=◌
  unfoldable pub ◌>>=◌ : {A B : Type 0} → Step E A → (A → Step E B) → Step E B
  (first >>= rest) s = next rest (first s)

  unfoldable pub finish : {A : Type 0} → A → Step E A
  finish a s = (inr a, s)

  unfoldable pub raise : {A : Type 0} → E → Step E A
  raise e s = (inl e, s)

  unfoldable pub look : {A : Type 0} → (LocalStore → A) → Step E A
  look f s = (inr (f s), s)

  abbrev pub settled :
      {A : Type 0}
      → (LocalStoreError → E)
      → LocalStore
      → Result (A × LocalStore)
      → (E ⊎ A) × LocalStore
  settled wrap s (err e) = (inl (wrap e), s)
  settled wrap s (ok (a, t)) = (inr a, t)

  -- An operation of the store.
  unfoldable pub stored :
      {A : Type 0} → (LocalStoreError → E) → (LocalStore → Result (A × LocalStore)) → Step E A
  stored wrap operation s = settled wrap s (operation s)

  -- An answer that does not touch the store.
  unfoldable pub answered : {A : Type 0} → E ⊎ A → Step E A
  answered answer s = (answer, s)

  unfoldable pub when : Bool → Step E (Unit {0}) → Step E (Unit {0})
  when true body = body
  when false body = finish tt

-- `match first { … }`: the result is handed over, errors included.
unfoldable pub attempt : {E F A : Type 0} → Step E A → Step F (E ⊎ A)
attempt first s = (inr (first s).0, (first s).1)

abbrev pub local_store : LocalStoreError → SyncCycleError
local_store e = failed_at "local store"

-- `LocalStore::get_skill`, but for the time of the access.
unfoldable pub get_skill : String → LocalStore → Option LocalSkill
get_skill id s = find_where (has_skill_id id) s.skills

abbrev pub metadata_of : Option LocalSkill → Option MutationMetadata
metadata_of none = none
metadata_of (some skill) = some (record { name = skill.name; slug = skill.slug })

abbrev pub remote_id_of : Option LocalSkill → Option String
remote_id_of none = none
remote_id_of (some skill) = skill.remote_id

unfoldable pub device_id_for : Option String → Step SyncCycleError String
device_id_for none = raise (failed_at "device registration")
device_id_for (some id) = finish id

-- `pushed` and `push_failure`
abbrev pub Pushed : Type 0
Pushed = ℕ × Option SyncCycleError

abbrev pub one_more : Pushed → Pushed
one_more (n, failure) = (n + 1, failure)

module _ (c : Client) where
  -- `store.apply_mutation_outcome(&outcome)?`
  unfoldable pub learn : String → MutationOutcome → Step SyncCycleError OutcomeApplied
  learn id outcome = stored local_store (apply_mutation_outcome (c.learns_at id) outcome)

  unfoldable pub uploaded : LocalMutation → Option String → Step SyncCycleError (Unit {0})
  uploaded m none = finish tt
  uploaded m (some text) = do
    applied ← learn m.id (transport_error m.id "PACKAGE_UPLOAD_FAILED" text)
    raise (failed_at "package negotiation")

  -- The package goes first; a delete carries none.
  unfoldable pub upload : MutationOperation → LocalMutation → Step SyncCycleError (Unit {0})
  upload delete m = finish tt
  upload create m = uploaded m (c.upload_closure m.id m.payload_hash)
  upload update m = uploaded m (c.upload_closure m.id m.payload_hash)

  abbrev pub refusal_outcome : LocalMutation → SyncClientError → MutationOutcome
  refusal_outcome m e = record {
    mutation_id = m.id;
    status = "validation_error";
    remote_skill_id = none;
    revision = none;
    conflict_head_revision = none;
    conflict_package_manifest_hash = none;
    error_code = some (or_default (error_code e) "TRANSPORT_ERROR");
    message = some (c.error_text e);
  }

  unfoldable pub submit_failed :
      LocalMutation → SyncClientError → MutationOutcome → Step SyncCycleError (Unit {0})
  submit_failed m e outcome = do applied ← learn m.id outcome; raise (failed_at "mutation submit")

  abbrev lost : LocalMutation → SyncClientError → Step SyncCycleError (Unit {0})
  lost m e =
      submit_failed m e
        (transport_error m.id (or_default (error_code e) "TRANSPORT_ERROR") (c.error_text e))

  unfoldable pub submitted :
      LocalMutation → SyncClientError ⊎ MutationResponse → Step SyncCycleError (Unit {0})
  submitted m (inr response) = do applied ← learn m.id (into_outcome response); finish tt
  submitted m (inl not_signed_in) = raise (unauthenticated not_signed_in)
  submitted m (inl (authentication code status)) =
      raise (unauthenticated (authentication code status))
  submitted m (inl (request code status)) =
      submit_failed m (request code status) (refusal_outcome m (request code status))
  submitted m (inl (credential_store text)) = lost m (credential_store text)
  submitted m (inl (server code status)) = lost m (server code status)
  submitted m (inl (network text)) = lost m (network text)
  submitted m (inl (malformed_answer text)) = lost m (malformed_answer text)

  unfoldable pub dispatch_mutation : LocalMutation → Step SyncCycleError (Unit {0})
  dispatch_mutation m = do
    sent ← upload m.operation m
    skill ← look (get_skill m.skill_id)
    device ← look (λ s. s.sync.device_id)
    device_id ← device_id_for device
    submitted m
        (c.post_mutation (mutation_request device_id m (remote_id_of skill) (metadata_of skill)))

  unfoldable pub after_dispatch :
      List LocalMutation
      → Step SyncCycleError Pushed
      → SyncCycleError ⊎ Unit {0}
      → Step SyncCycleError Pushed
  after_dispatch tail go (inr u) = do pushed ← go; finish (one_more pushed)
  after_dispatch tail go (inl e) = do
    released ← stored local_store (release_in_flight_mutations (map (λ m. m.id) tail))
    finish (0, some e)

  -- The first failure stops the loop, and the mutations behind it go back to the queue.
  unfoldable pub push_each : List LocalMutation → Step SyncCycleError Pushed
  push_each [] = finish (0, none)
  push_each (m ∷ tail) = do
    result ← attempt (dispatch_mutation m)
    after_dispatch tail (push_each tail) result
