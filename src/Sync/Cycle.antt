-- ===== src/Sync/Cycle.antt =====
-- `run_cycle_inner` of frontend/src-tauri/src/sync.rs: session, device, push, pull, leases.
use skill_hive.Prelude.{
  ℕ, String, Bool, true, false, not, ◌||◌, Option, none, some, ◌⊎◌, inl, inr, is_none, or_default,
  leb, ◌==◌,
}
use skill_hive.Store.{LocalSyncState, Result, ok, err}
use skill_hive.Outbox.{claim_dispatchable_mutations}
use skill_hive.Scope.{
  assert_server_scope, record_authenticated_device, record_push_success, record_sync_error,
  ensure_client_instance_id, differs_from,
}
use skill_hive.Entitlement.{expire_due_entitlements}
use skill_hive.Sync.Wire.{
  Client, Device, SyncClientError, SyncCycleError, not_signed_in, authentication, signed_out,
  scope_mismatch, unauthenticated, failed_at,
}
use skill_hive.Sync.Push.{
  Step, ◌>>=◌, finish, look, stored, answered, when, attempt, local_store, push_each,
}
use skill_hive.Sync.Drain.{PullError, PullSummary, pull_changes, max_pages_per_cycle}

abbrev pub max_mutations_per_cycle : ℕ
max_mutations_per_cycle = 50

pub record SyncCycleReport : Type 0 where
  pub pushed : ℕ
  pub pulled : Bool
  pub pages_applied : ℕ
  pub upserts : ℕ
  pub tombstones : ℕ
  pub conflicts_detected : ℕ
  pub blobs_downloaded : ℕ
  pub stopped_reason : Option SyncCycleError

-- `SyncCycleReport::has_more`
unfoldable pub has_more : SyncCycleReport → Bool
has_more report = leb max_pages_per_cycle report.pages_applied

unfoldable pub classify_session_failure : SyncClientError → SyncCycleError
classify_session_failure not_signed_in = signed_out
classify_session_failure (authentication code status) = unauthenticated (authentication code status)
classify_session_failure e = failed_at "session refresh"

abbrev pub in_scope : Result (Unit {0}) → SyncCycleError ⊎ Unit {0}
in_scope (err e) = inl scope_mismatch
in_scope (ok u) = inr tt

abbrev session_of : Option SyncClientError → SyncCycleError ⊎ Unit {0}
session_of none = inr tt
session_of (some e) = inl (classify_session_failure e)

abbrev pub usable : Device → Bool → SyncCycleError ⊎ Device
usable device true = inl (unauthenticated (authentication "DEVICE_REVOKED" 403))
usable device false = inr device

abbrev pub registered : SyncClientError ⊎ Device → SyncCycleError ⊎ Device
registered (inl e) = inl (classify_session_failure e)
registered (inr device) = usable device device.is_revoked

abbrev same_user : Bool → SyncCycleError ⊎ Unit {0}
same_user true = inl scope_mismatch
same_user false = inr tt

-- The device, the user or the server is not the one on record.
abbrev is_other : String → Option String → Bool
is_other value none = true
is_other value (some known) = not (known == value)

abbrev pub needs_record : String → Device → LocalSyncState → Bool
needs_record url device state =
    is_other device.device_id state.device_id
    || is_other device.user_id state.server_user_id
    || is_other url state.server_url

abbrev pub pulled_or : PullError ⊎ PullSummary → SyncCycleError ⊎ PullSummary
pulled_or (inl e) = inl (failed_at "pull")
pulled_or (inr summary) = inr summary

abbrev is_failure : PullError ⊎ PullSummary → Bool
is_failure (inl e) = true
is_failure (inr summary) = false

abbrev pub report_of : ℕ × Option SyncCycleError → PullSummary → SyncCycleReport
report_of (n, failure) pull = record {
  pushed = n;
  pulled = true;
  pages_applied = pull.pages_applied;
  upserts = pull.upserts;
  tombstones = pull.tombstones;
  conflicts_detected = pull.conflicts_detected;
  blobs_downloaded = pull.blobs_downloaded;
  stopped_reason = failure;
}

module _ (c : Client) (error_text : PullError → String) where
  -- Session and device: the device that the server knows this installation by.
  unfoldable pub open_session : Step SyncCycleError Device
  open_session = do
    scope ← look (assert_server_scope c.base_url)
    bound ← answered (in_scope scope)
    session ← answered (session_of c.session)
    instance_id ← stored local_store (ensure_client_instance_id c.drawn_id)
    answered (registered (c.register_device instance_id))

  unfoldable pub bind_device : Device → Step SyncCycleError (Unit {0})
  bind_device device = do
    state ← look (λ s. s.sync)
    user ← answered (same_user (differs_from device.user_id state.server_user_id))
    when (needs_record c.base_url device state) (
        stored local_store (
          record_authenticated_device c.base_url
            (or_default state.server_login_identity "sync-worker") device.client_instance_id
            device.device_id device.user_id))

  unfoldable pub push : Step SyncCycleError (ℕ × Option SyncCycleError)
  push = do
    claimed ← stored local_store (claim_dispatchable_mutations c.claims_at max_mutations_per_cycle)
    pushed ← push_each c claimed
    noted ← when (is_none pushed.1) (stored local_store (record_push_success c.pushed_at))
    finish pushed

  abbrev failure_text : PullError ⊎ PullSummary → String
  failure_text (inl e) = error_text e
  failure_text (inr summary) = ""

  -- A failure of the pull is recorded before it is returned.
  unfoldable pub pull : Step SyncCycleError PullSummary
  pull = do
    result ← attempt (pull_changes c)
    noted ← when (is_failure result) (stored local_store (record_sync_error (failure_text result)))
    answered (pulled_or result)

  unfoldable pub run_cycle : Step SyncCycleError SyncCycleReport
  run_cycle = do
    device ← open_session
    bound ← bind_device device
    pushed ← push
    summary ← pull
    expired ← stored local_store (expire_due_entitlements c.expires_at)
    finish (report_of pushed summary)
