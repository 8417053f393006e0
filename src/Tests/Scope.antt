-- ===== src/Tests/Scope.antt =====
-- Runs of the operations of sync_state.rs.
use skill_hive.Prelude.{
  ◌≡◌, ◌≢◌, inl, refl, true, none, some, ltb, is_some, is_blank, trim, eq_ignore_ascii_case,
}
use skill_hive.Store.{LocalStore, ok, validate_non_empty}
use skill_hive.Scope.{
  local_rows, scope_complete, identity_matches, prepare_login_scope, record_authenticated_device,
  authenticated, assert_server_scope, invalidate_authenticated_scope, ensure_client_instance_id,
}
use skill_hive.Scope.Trust.{ScopeStep, ScopeSteps, account_never_crosses}
use skill_hive.Scope.Closed.{
  scope_check_is_bound, logout_closes, left_cursor_keeps_address, instance_id_is_stable,
  logout_forgets_account,
}
use skill_hive.Tests.Fixtures.{bound_sync, edited_store}

login_run : prepare_login_scope "https://hub" "Ana" edited_store ≡ ok (tt, edited_store)
unfolding prepare_login_scope validate_non_empty identity_matches eq_ignore_ascii_case trim is_blank
login_run = refl

abbrev registered_store : LocalStore
registered_store = record edited_store {
  sync = authenticated "https://hub" "Ana" "client-1" "device-2" "user-1" bound_sync;
}

register_run :
    record_authenticated_device "https://hub" "Ana" "client-1" "device-2" "user-1" edited_store
    ≡ ok (tt, registered_store)
unfolding record_authenticated_device validate_non_empty trim is_blank
register_run = refl

account_never_crosses_example :
    ((registered_store.sync.server_url ≡ some "https://hub")
      × (registered_store.sync.server_user_id ≡ some "user-1"))
    × (registered_store.skills ≡ edited_store.skills)
    × (registered_store.mutations ≡ edited_store.mutations)
account_never_crosses_example =
    account_never_crosses "https://hub" "user-1" edited_store registered_store
      (ScopeSteps.next (ScopeStep.log_in "https://hub" "Ana" login_run) (
        ScopeSteps.next
          (ScopeStep.bind_device "https://hub" "Ana" "client-1" "device-2" "user-1" register_run)
          ScopeSteps.stay))
      refl (refl, refl)

check_run : assert_server_scope "https://hub" edited_store ≡ ok tt
unfolding assert_server_scope validate_non_empty is_blank
check_run = refl

scope_check_is_bound_example :
    (edited_store.sync.server_url ≡ some "https://hub")
    × (is_some edited_store.sync.server_login_identity ≡ true)
    × (is_some edited_store.sync.server_user_id ≡ true)
scope_check_is_bound_example = scope_check_is_bound "https://hub" edited_store check_run refl

abbrev closed_store : LocalStore
closed_store = record edited_store {
  sync = record bound_sync {
    server_login_identity = none;
    server_user_id = none;
    device_id = none;
    server_cursor = none;
    last_successful_push_at = none;
    last_successful_pull_at = none;
    last_server_error = some "desktop logout pending";
  };
}

logout_run : invalidate_authenticated_scope edited_store ≡ ok (tt, closed_store)
unfolding invalidate_authenticated_scope
logout_run = refl

logout_closes_example : assert_server_scope "https://hub" closed_store ≢ ok tt
logout_closes_example = logout_closes "https://hub" edited_store closed_store logout_run (inl refl)

left_cursor_keeps_address_example :
    (scope_complete edited_store.sync ≡ true)
    × (edited_store.sync.server_url ≡ some "https://hub")
    × (ltb 0 (local_rows edited_store) ≡ true → edited_store.sync.server_user_id ≡ some "user-1")
    × (registered_store.sync.server_cursor ≡ edited_store.sync.server_cursor)
left_cursor_keeps_address_example =
    left_cursor_keeps_address "https://hub" "Ana" "client-1" "device-2" "user-1" edited_store
      edited_store registered_store login_run register_run refl

ensure_run : ensure_client_instance_id "client-9" edited_store ≡ ok ("client-1", edited_store)
unfolding ensure_client_instance_id
ensure_run = refl

later_ensure_run : ensure_client_instance_id "client-7" edited_store ≡ ok ("client-1", edited_store)
later_ensure_run =
    instance_id_is_stable "client-9" "client-7" edited_store edited_store "client-1" ensure_run

logout_forgets_account_example :
    (u : LocalStore) × (record_authenticated_device "https://hub" "Bo" "client-1" "device-3"
        "user-2" closed_store
      ≡ ok (tt, u))
    × (u.sync.server_user_id ≡ some "user-2")
    × (u.skills ≡ edited_store.skills)
    × (u.mutations ≡ edited_store.mutations)
unfolding is_blank
logout_forgets_account_example =
    logout_forgets_account "https://hub" "Bo" "client-1" "device-3" "user-2" edited_store
      closed_store logout_run refl refl refl refl refl refl
