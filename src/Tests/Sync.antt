-- ===== src/Tests/Sync.antt =====
-- A cycle that sends one mutation and pulls one empty page.
use skill_hive.Prelude.{
  String, ◌≡◌, ◌≢◌, ◌≤◌, ◌⊎◌, refl, inl, inr, true, false, none, some, [], ◌∷◌, ℕ, ap, Memᴰ, pos,
}
use skill_hive.Store.{LocalStore, LocalStoreError, invalid_input, ok, err, validate_non_empty}
use skill_hive.Outbox.{
  release_in_flight_mutations, claim_dispatchable_mutations, read_dispatchable, claim_each,
  read_mutation,
}
use skill_hive.Outcome.{
  apply_mutation_outcome, mutation_row, apply_to_row, apply_status, apply_acked, read_skill_state,
  mutation_state_of,
}
use skill_hive.Scope.{
  assert_server_scope, ensure_client_instance_id, record_push_success,
  record_pull_cursor_in_transaction,
}
use skill_hive.Entitlement.{expire_due_entitlements}
use skill_hive.Pull.{ChangesPage, apply_changes_page, apply_changes}
use skill_hive.Journey.Reach.{Reaches, StoreStep, IsSound, reached_is_sound}
use skill_hive.Sync.Protocol.{Runs}
use skill_hive.Sync.Opens.{IsOpen, NeverAcked}
use skill_hive.Sync.{
  Client, Device, MutationResponse, MutationRequest, SyncClientError, scope_mismatch,
  unauthenticated, authentication, PullError, PullSummary, exhausted, SyncCycleReport, run_cycle,
  pull_changes, dispatch_mutation, open_session, bind_device, push, pull, push_each, upload,
  uploaded, learn, submitted, after_dispatch, attempt, stored, answered, look, finish, raise, when,
  next, device_id_for, get_skill, mutation_request, into_outcome, turn, pull_pages, ◌>>=◌,
}
use skill_hive.Sync.Steps.{cycle_refines_steps, cycle_keeps_work}
use skill_hive.Sync.Bounds.{Counts, push_is_bounded, pull_is_bounded}
use skill_hive.Sync.Refusals.{refused_login_keeps_store, foreign_server_changes_nothing}
use skill_hive.Tests.Fixtures.{
  fresh_store, fresh_keys, fresh-IsOutbox, first_edit, first_row, edited_store, edit_run,
  flying_row, claimed_store,
}

abbrev device : Device
device = record {
  client_instance_id = "client-1";
  device_id = "device-1";
  user_id = "user-1";
  is_revoked = false;
}

abbrev acked : MutationRequest → SyncClientError ⊎ MutationResponse
acked sent = inr (record {
  mutation_id = sent.mutation_id;
  status = "acked";
  result = some (record { remote_skill_id = "remote-1"; revision = pos 1 });
  conflict = none;
  error_code = none;
  message = none;
})

abbrev last_page : ChangesPage
last_page = record { changes = []; next_cursor = "v1.B"; has_more = false }

abbrev hub : Client
hub = record {
  base_url = "https://hub";
  drawn_id = "client-2";
  session = none;
  register_device = λ id. inr device;
  upload_closure = λ id hash. none;
  post_mutation = acked;
  fetch_page = λ n cursor. inr last_page;
  download_blobs = λ n page. inr 0;
  error_text = λ e. "error";
  parse_instant = λ text. inr text;
  temp_dir = "/tmp";
  claims_at = 110;
  learns_at = λ id. 120;
  pushed_at = 130;
  pulls_at = λ n. 140;
  instant_at = λ n. 150;
  expires_at = 160;
}

abbrev text_of : PullError → String
text_of e = "pull failed"

abbrev report : SyncCycleReport
report = record {
  pushed = 1;
  pulled = true;
  pages_applied = 1;
  upserts = 0;
  tombstones = 0;
  conflicts_detected = 0;
  blobs_downloaded = 0;
  stopped_reason = none;
}

cycle_run : (run_cycle hub text_of edited_store).0 ≡ inr report
unfolding run_cycle open_session bind_device push pull push_each dispatch_mutation upload uploaded
    learn submitted after_dispatch attempt stored answered look finish raise when next device_id_for
    get_skill mutation_request into_outcome turn pull_pages pull_changes ◌>>=◌ assert_server_scope
    ensure_client_instance_id claim_dispatchable_mutations read_dispatchable claim_each
    read_mutation apply_mutation_outcome mutation_row apply_to_row apply_status apply_acked
    read_skill_state mutation_state_of record_push_success expire_due_entitlements
    apply_changes_page apply_changes record_pull_cursor_in_transaction validate_non_empty
cycle_run = refl

claim_fifty : claim_dispatchable_mutations 110 50 edited_store ≡ ok (flying_row ∷ [], claimed_store)
unfolding claim_dispatchable_mutations read_dispatchable claim_each read_mutation
claim_fifty = refl

push_run : (push hub text_of edited_store).0 ≡ inr (1, none)
unfolding push push_each dispatch_mutation upload uploaded learn submitted after_dispatch attempt
    stored answered look finish raise when next device_id_for get_skill mutation_request
    into_outcome ◌>>=◌ claim_dispatchable_mutations read_dispatchable claim_each read_mutation
    apply_mutation_outcome mutation_row apply_to_row apply_status apply_acked read_skill_state
    mutation_state_of record_push_success
push_run = refl

push_is_bounded_example : (1 ≤ 50) × Counts hub 1 (1, none)
push_is_bounded_example =
    push_is_bounded hub text_of edited_store claimed_store (flying_row ∷ []) (1, none) claim_fifty
      push_run

abbrev synced_store : LocalStore
synced_store = (run_cycle hub text_of edited_store).1

cycle_refines_steps_example : Runs hub edited_store synced_store
cycle_refines_steps_example = cycle_refines_steps hub text_of edited_store

-- A server that answers every submission with a conflict.
abbrev clashing : MutationRequest → SyncClientError ⊎ MutationResponse
clashing sent = inr (record {
  mutation_id = sent.mutation_id;
  status = "conflict";
  result = none;
  conflict = some (record { revision = pos 4; package_manifest_hash = none });
  error_code = none;
  message = none;
})

abbrev clashing_hub : Client
clashing_hub = record hub { post_mutation = clashing }

abbrev status_of : SyncClientError ⊎ MutationResponse → String
status_of (inl e) = ""
status_of (inr response) = response.status

clashing-NeverAcked : NeverAcked clashing_hub "mut-1"
clashing-NeverAcked sent response h own acked = let e = ap status_of h in cc

edited-IsSound : IsSound edited_store
edited-IsSound =
    reached_is_sound fresh_store edited_store
      (Reaches.after (StoreStep.edits "mut-1" 100 first_edit first_row edit_run) Reaches.done)
      (fresh_keys, fresh-IsOutbox)

cycle_keeps_work_example :
    IsOpen first_row (run_cycle clashing_hub text_of edited_store).1.mutations
cycle_keeps_work_example =
    cycle_keeps_work clashing_hub text_of edited_store first_row edited-IsSound (Memᴰ.head refl)
      refl clashing-NeverAcked

pull_is_bounded_example :
    ((pull_changes hub edited_store).0 ≢ inl exhausted)
    × ((summary : PullSummary)
        → (pull_changes hub edited_store).0 ≡ inr summary
        → (summary.pages_applied ≤ 100) × (summary.has_more ≡ true → summary.pages_applied ≡ 100))
pull_is_bounded_example = pull_is_bounded hub edited_store

-- A server that has forgotten the session.
abbrev stale_hub : Client
stale_hub = record hub { post_mutation = λ sent. inl (authentication "TOKEN_EXPIRED" 401) }

refused_login_keeps_store_example :
    (dispatch_mutation stale_hub first_row edited_store
      ≡ (inl (unauthenticated (authentication "TOKEN_EXPIRED" 401)), edited_store))
    × ((n : ℕ) × (t : LocalStore) × (release_in_flight_mutations [] edited_store ≡ ok (n, t))
        × (push_each stale_hub (first_row ∷ []) edited_store
            ≡ (inr (0, some (unauthenticated (authentication "TOKEN_EXPIRED" 401))), t)))
refused_login_keeps_store_example =
    refused_login_keeps_store stale_hub first_row edited_store "device-1"
      (authentication "TOKEN_EXPIRED" 401) (inr refl) refl refl tt []

abbrev other_hub : Client
other_hub = record hub { base_url = "https://other" }

abbrev refusal : LocalStoreError
refusal =
    invalid_input "local sync state is bound to a different or incomplete server/account scope"

foreign_run : assert_server_scope "https://other" edited_store ≡ err refusal
unfolding assert_server_scope validate_non_empty
foreign_run = refl

foreign_cycle : run_cycle other_hub text_of edited_store ≡ (inl scope_mismatch, edited_store)
foreign_cycle = foreign_server_changes_nothing other_hub text_of edited_store refusal foreign_run
