-- ===== src/Scope/State.antt =====
-- The operations of sync_state.rs. `now` is CURRENT_TIMESTAMP, in seconds.
use skill_hive.Prelude.{
  ℕ, ◌+◌, String, Bool, true, false, not, ◌&&◌, ◌||◌, Option, none, some, ◌==◌, ltb, length,
  if◌then◌else◌, is_some, is_none, trim, eq_ignore_ascii_case,
}
use skill_hive.Store.{
  LocalStore, LocalSyncState, Result, ok, invalid_input, ◌>>◌, reject_if, validate_non_empty,
}

-- (SELECT COUNT(*) FROM local_skills) + (SELECT COUNT(*) FROM local_mutations)
abbrev pub local_rows : LocalStore → ℕ
local_rows s = length s.skills + length s.mutations

-- `bound.as_deref().map_or(true, test)`
abbrev pub unbound_or : (String → Bool) → Option String → Bool
unbound_or test none = true
unbound_or test (some value) = test value

-- `bound.as_deref().is_some_and(|value| value != text)`
abbrev pub differs_from : String → Option String → Bool
differs_from text none = false
differs_from text (some value) = not (value == text)

abbrev pub scope_complete : LocalSyncState → Bool
scope_complete sync =
    is_some sync.server_url && is_some sync.server_login_identity && is_some sync.server_user_id

abbrev pub established_server : LocalSyncState → Bool
established_server sync = is_some sync.server_url && is_some sync.server_user_id

unfoldable pub set_client_instance_id : String → LocalStore → Result (Unit {0} × LocalStore)
set_client_instance_id client_instance_id s = do
  validate_non_empty "client_instance_id" client_instance_id
  ok (tt, record s { sync = record s.sync { client_instance_id = some client_instance_id } })

unfoldable pub record_device_registration :
    String → String → String → LocalStore → Result (Unit {0} × LocalStore)
record_device_registration client_instance_id device_id server_user_id s = do
  validate_non_empty "client_instance_id" client_instance_id
  validate_non_empty "device_id" device_id
  validate_non_empty "server_user_id" server_user_id
  ok (
    tt,
    record s {
      sync = record s.sync {
        client_instance_id = some client_instance_id;
        device_id = some device_id;
        server_user_id = some server_user_id;
        last_server_error = none;
      };
    },
  )

abbrev pub url_matches : String → LocalSyncState → Bool
url_matches server_url sync = unbound_or (λ value. value == server_url) sync.server_url

unfoldable pub identity_matches : String → LocalSyncState → Bool
identity_matches login_identity sync =
    unbound_or (λ value. eq_ignore_ascii_case value (trim login_identity))
      sync.server_login_identity

-- The UPDATE of `prepare_login_scope`.
abbrev pub pending_login : String → LocalSyncState → LocalSyncState
pending_login server_url sync = record sync {
  server_url = some server_url;
  server_login_identity = none;
  server_user_id =
      if url_matches server_url sync && established_server sync then sync.server_user_id else none;
  device_id = none;
  server_cursor = none;
  last_server_error = none;
}

unfoldable pub prepare_login_scope : String → String → LocalStore → Result (Unit {0} × LocalStore)
prepare_login_scope server_url login_identity s = do
  validate_non_empty "server_url" server_url
  validate_non_empty "login_identity" login_identity
  reject_if
      (ltb 0 (local_rows s) && established_server s.sync && not (url_matches server_url s.sync))
      (invalid_input
        "local data belongs to another SkillHive server/account; export or clear it before switching")
  if scope_complete s.sync
        && url_matches server_url s.sync
        && identity_matches login_identity s.sync
      then ok (tt, s)
      else ok (tt, record s { sync = pending_login server_url s.sync })

-- `bound_url.as_ref().and(bound_user.as_ref())`
abbrev pub expected_user : LocalSyncState → Option String
expected_user sync = if is_some sync.server_url then sync.server_user_id else none

abbrev pub crosses_scope : String → String → LocalStore → Bool
crosses_scope server_url server_user_id s =
    differs_from server_url s.sync.server_url
    || (ltb 0 (local_rows s) && differs_from server_user_id (expected_user s.sync))

-- The UPDATE of `record_authenticated_device`.
abbrev pub authenticated :
    String → String → String → String → String → LocalSyncState → LocalSyncState
authenticated server_url login_identity client_instance_id device_id server_user_id sync =
    record sync {
      server_url = some server_url;
      server_login_identity = some login_identity;
      client_instance_id = some client_instance_id;
      device_id = some device_id;
      server_user_id = some server_user_id;
      server_cursor = if scope_complete sync then sync.server_cursor else none;
      last_successful_push_at = if scope_complete sync then sync.last_successful_push_at else none;
      last_successful_pull_at = if scope_complete sync then sync.last_successful_pull_at else none;
      last_server_error = none;
    }

unfoldable pub record_authenticated_device :
    String → String → String → String → String → LocalStore → Result (Unit {0} × LocalStore)
record_authenticated_device server_url login_identity client_instance_id device_id server_user_id
      s =
    do
      validate_non_empty "server_url" server_url
      validate_non_empty "login_identity" login_identity
      validate_non_empty "client_instance_id" client_instance_id
      validate_non_empty "device_id" device_id
      validate_non_empty "server_user_id" server_user_id
      reject_if (crosses_scope server_url server_user_id s)
          (invalid_input "authenticated server/account does not match the durable local scope")
      ok (
        tt,
        record s {
          sync =
              authenticated server_url (trim login_identity) client_instance_id device_id
                server_user_id s.sync;
        },
      )

abbrev pub scope_started : LocalSyncState → Bool
scope_started sync =
    is_some sync.server_url
    || is_some sync.server_login_identity
    || is_some sync.server_user_id
    || is_some sync.server_cursor

abbrev pub out_of_scope : String → LocalStore → Bool
out_of_scope server_url s =
    differs_from server_url s.sync.server_url
    || (scope_started s.sync && not (scope_complete s.sync))
    || (ltb 0 (local_rows s) && not (established_server s.sync))

unfoldable pub assert_server_scope : String → LocalStore → Result (Unit {0})
assert_server_scope server_url s = do
  validate_non_empty "server_url" server_url
  reject_if (out_of_scope server_url s)
      (invalid_input "local sync state is bound to a different or incomplete server/account scope")
  ok tt

-- The UPDATE of `prepare_server_switch`.
abbrev pub switched : String → LocalSyncState → LocalSyncState
switched server_url sync = record sync {
  server_url = some server_url;
  server_login_identity = none;
  server_user_id = none;
  device_id = none;
  server_cursor = none;
  last_server_error = none;
}

unfoldable pub prepare_server_switch : String → LocalStore → Result (Unit {0} × LocalStore)
prepare_server_switch server_url s = do
  validate_non_empty "server_url" server_url
  reject_if
      (ltb 0 (local_rows s)
        && established_server s.sync
        && differs_from server_url s.sync.server_url)
      (invalid_input
        "local data belongs to another server; synchronize or clear it before switching")
  if is_none s.sync.server_url
        || differs_from server_url s.sync.server_url
        || not (scope_complete s.sync)
      then ok (tt, record s { sync = switched server_url s.sync })
      else ok (tt, s)

unfoldable pub invalidate_authenticated_scope : LocalStore → Result (Unit {0} × LocalStore)
invalidate_authenticated_scope s = ok (
  tt,
  record s {
    sync = record s.sync {
      server_login_identity = none;
      server_user_id = none;
      device_id = none;
      server_cursor = none;
      last_successful_push_at = none;
      last_successful_pull_at = none;
      last_server_error = some "desktop logout pending";
    };
  },
)

abbrev pub advanced : ℕ → String → LocalSyncState → LocalSyncState
advanced now cursor sync = record sync {
  server_cursor = some cursor;
  last_successful_pull_at = some now;
  last_server_error = none;
}

unfoldable pub update_sync_cursor : ℕ → String → LocalStore → Result (Unit {0} × LocalStore)
update_sync_cursor now cursor s = do
  validate_non_empty "server_cursor" cursor
  ok (tt, record s { sync = advanced now cursor s.sync })

unfoldable pub record_sync_error : String → LocalStore → Result (Unit {0} × LocalStore)
record_sync_error error s = do
  validate_non_empty "last_server_error" error
  ok (tt, record s { sync = record s.sync { last_server_error = some error } })

unfoldable pub record_push_success : ℕ → LocalStore → Result (Unit {0} × LocalStore)
record_push_success now s = ok (
  tt,
  record s {
    sync = record s.sync { last_successful_push_at = some now; last_server_error = none };
  },
)

-- `client_instance_id` is what `Uuid::new_v4` draws if there is none yet.
unfoldable pub ensure_client_instance_id : String → LocalStore → Result (String × LocalStore)
ensure_client_instance_id client_instance_id s = elim s.sync.client_instance_id [
  | some existing ↦ ok (existing, s)
  | none ↦ ok (
    client_instance_id,
    record s { sync = record s.sync { client_instance_id = some client_instance_id } },
  )
]

-- The cursor of a page, inside the transaction that applies the page.
unfoldable pub record_pull_cursor_in_transaction : ℕ → String → LocalStore → Result LocalStore
record_pull_cursor_in_transaction now cursor s = do
  validate_non_empty "server_cursor" cursor
  ok (record s { sync = advanced now cursor s.sync })
