-- ===== src/Scope/Trust.antt =====
-- The trust boundary: local rows, cursor and account.
use skill_hive.Prelude.{
  ℕ, String, ◌≡◌, refl, sym, ap, ◌∙◌, Bool, true, false, not, ◌&&◌, ◌||◌, ◌⊎◌, inl, inr, some,
  arith, eq_iff, ltb, if◌then◌else◌, Bool-cases, is_none, trim,
}
use skill_hive.Store.{
  LocalStore, Result, ok, invalid_input, ◌>>◌, >>-eq-ok, ok_parts, reject_if, reject_if-passed,
  validate_non_empty,
}
use skill_hive.Scope.State.{
  local_rows, differs_from, scope_complete, established_server, url_matches, identity_matches,
  pending_login, prepare_login_scope, crosses_scope, authenticated, record_authenticated_device,
  switched, prepare_server_switch, invalidate_authenticated_scope, update_sync_cursor,
  record_sync_error, record_push_success,
}

-- A login that was prepared, taken apart.
abbrev pub Prepared : String → String → LocalStore → LocalStore → Type 0
Prepared server_url login_identity s t =
    ((ltb 0 (local_rows s) && established_server s.sync && not (url_matches server_url s.sync))
      ≡ false)
    × (((scope_complete s.sync
              && url_matches server_url s.sync
              && identity_matches login_identity s.sync
            ≡ true)
          × (t ≡ s))
        ⊎ (t ≡ record s { sync = pending_login server_url s.sync }))

pub prepare_login_scope-Prepared :
    (server_url login_identity : String) (s t : LocalStore)
    → prepare_login_scope server_url login_identity s ≡ ok (tt, t)
    → Prepared server_url login_identity s t
unfolding prepare_login_scope
prepare_login_scope-Prepared server_url login_identity s t h =
    let test =
      ltb 0 (local_rows s) && established_server s.sync && not (url_matches server_url s.sync) in
    let same_scope =
      scope_complete s.sync
      && url_matches server_url s.sync
      && identity_matches login_identity s.sync in
    let refusal =
      invalid_input
        "local data belongs to another SkillHive server/account; export or clear it before switching" in
    let kept : Result (Unit {0} × LocalStore) = ok (tt, s) in
    let written : Result (Unit {0} × LocalStore) =
      ok (tt, record s { sync = pending_login server_url s.sync }) in
    let rest = if same_scope then kept else written in
    let h1 = >>-eq-ok (validate_non_empty "server_url" server_url) _ h in
    let h2 =
      >>-eq-ok (validate_non_empty "login_identity" login_identity) (reject_if test refusal >> rest)
        h1 in
    let free = reject_if-passed test refusal rest h2 in
    let h3 = >>-eq-ok (reject_if test refusal) rest h2 in
    (
      free,
      elim (Bool-cases same_scope) [
        | inl same ↦ inl (same, sym (ok_parts (rw same at h3)).1)
        | inr other ↦ inr (sym (ok_parts (rw other at h3)).1)
      ],
    )

abbrev pub Recorded : String → String → String → String → String → LocalStore → LocalStore → Type 0
Recorded server_url login_identity client device user s t =
    (crosses_scope server_url user s ≡ false)
    × (t ≡ record s {
      sync = authenticated server_url (trim login_identity) client device user s.sync;
    })

pub record_authenticated_device-Recorded :
    (server_url login_identity client device user : String) (s t : LocalStore)
    → record_authenticated_device server_url login_identity client device user s ≡ ok (tt, t)
    → Recorded server_url login_identity client device user s t
unfolding record_authenticated_device
record_authenticated_device-Recorded server_url login_identity client device user s t h =
    let refusal =
      invalid_input "authenticated server/account does not match the durable local scope" in
    let h1 = >>-eq-ok (validate_non_empty "server_url" server_url) _ h in
    let h2 = >>-eq-ok (validate_non_empty "login_identity" login_identity) _ h1 in
    let h3 = >>-eq-ok (validate_non_empty "client_instance_id" client) _ h2 in
    let h4 = >>-eq-ok (validate_non_empty "device_id" device) _ h3 in
    let h5 = >>-eq-ok (validate_non_empty "server_user_id" user) _ h4 in
    let free = reject_if-passed (crosses_scope server_url user s) refusal _ h5 in
    let h6 = >>-eq-ok (reject_if (crosses_scope server_url user s) refusal) _ h5 in
    (free, sym (ok_parts h6).1)

-- The scope that a store is bound to.
abbrev Bound : String → String → LocalStore → Type 0
Bound url user s = (s.sync.server_url ≡ some url) × (s.sync.server_user_id ≡ some user)

-- What a client does to the scope from its startup on, short of a logout or a change of the server
-- address. `record_device_registration`, which checks no scope, is called by tests alone and is left out.
pub data ScopeStep : LocalStore → LocalStore → Type 0 where
  log_in :
      {s t : LocalStore} (url identity : String)
      → prepare_login_scope url identity s ≡ ok (tt, t)
      → ScopeStep s t
  bind_device :
      {s t : LocalStore} (url identity client device user : String)
      → record_authenticated_device url identity client device user s ≡ ok (tt, t)
      → ScopeStep s t
  move_cursor :
      {s t : LocalStore} (now : ℕ) (cursor : String)
      → update_sync_cursor now cursor s ≡ ok (tt, t)
      → ScopeStep s t
  note_error :
      {s t : LocalStore} (error : String) → record_sync_error error s ≡ ok (tt, t) → ScopeStep s t
  note_push : {s t : LocalStore} (now : ℕ) → record_push_success now s ≡ ok (tt, t) → ScopeStep s t

-- Sequences of such steps.
pub data ScopeSteps : LocalStore → LocalStore → Type 0 where
  stay : {s : LocalStore} → ScopeSteps s s
  next : {s t u : LocalStore} → ScopeStep s t → ScopeSteps t u → ScopeSteps s u

abbrev SameRows : LocalStore → LocalStore → Type 0
SameRows s t = (t.skills ≡ s.skills) × (t.mutations ≡ s.mutations)

module _ (url user : String) (s t : LocalStore) (rows : ltb 0 (local_rows s) ≡ true)
    (bound : Bound url user s) where
  login-Bound :
      (server_url login_identity : String)
      → Prepared server_url login_identity s t
      → Bound url user t × SameRows s t
  login-Bound server_url login_identity (free, inl kept) = rw kept.1 (bound, (refl, refl))
  login-Bound server_url login_identity (free, inr e) =
      let established : established_server s.sync ≡ true = rw (bound.0, bound.1) refl in
      let matches : url_matches server_url s.sync ≡ true = ground arith in
      let same : url ≡ server_url = (eq_iff url server_url).0 (ground arith) in
      rw e ((ap some (sym same), rw (matches, established) bound.1), (refl, refl))

  device-Bound :
      (server_url login_identity client device server_user : String)
      → Recorded server_url login_identity client device server_user s t
      → Bound url user t × SameRows s t
  device-Bound server_url login_identity client device server_user (free, e) =
      let same_url : url ≡ server_url = (eq_iff url server_url).0 (ground arith) in
      let same_user : user ≡ server_user = (eq_iff user server_user).0 (ground arith) in
      rw e ((ap some (sym same_url), ap some (sym same_user)), (refl, refl))

  cursor-Bound :
      (now : ℕ) (cursor : String)
      → update_sync_cursor now cursor s ≡ ok (tt, t)
      → Bound url user t × SameRows s t
  unfolding update_sync_cursor
  cursor-Bound now cursor h =
      let h1 = >>-eq-ok _ _ h in let e = sym (ok_parts h1).1 in rw e (bound, (refl, refl))

  failure-Bound :
      (error : String) → record_sync_error error s ≡ ok (tt, t) → Bound url user t × SameRows s t
  unfolding record_sync_error
  failure-Bound error h =
      let h1 = >>-eq-ok _ _ h in let e = sym (ok_parts h1).1 in rw e (bound, (refl, refl))

  success-Bound :
      (now : ℕ) → record_push_success now s ≡ ok (tt, t) → Bound url user t × SameRows s t
  unfolding record_push_success
  success-Bound now h = let e = sym (ok_parts h).1 in rw e (bound, (refl, refl))

step-Bound :
    (url user : String) (s t : LocalStore)
    → ScopeStep s t
    → ltb 0 (local_rows s) ≡ true
    → Bound url user s
    → Bound url user t × SameRows s t
step-Bound url user s t (log_in server_url identity h) rows bound =
    login-Bound url user s t rows bound server_url identity
      (prepare_login_scope-Prepared server_url identity s t h)
step-Bound url user s t (bind_device server_url identity client name other h) rows bound =
    device-Bound url user s t rows bound server_url identity client name other
      (record_authenticated_device-Recorded server_url identity client name other s t h)
step-Bound url user s t (move_cursor now text h) rows bound =
    cursor-Bound url user s t rows bound now text h
step-Bound url user s t (note_error error h) rows bound =
    failure-Bound url user s t rows bound error h
step-Bound url user s t (note_push now h) rows bound = success-Bound url user s t rows bound now h

-- None of these steps touches the skills and the mutations.
pub scope-SameRows :
    (s t : LocalStore) → ScopeStep s t → (t.skills ≡ s.skills) × (t.mutations ≡ s.mutations)
unfolding update_sync_cursor record_sync_error record_push_success
scope-SameRows s t (log_in url identity h) =
    elim (prepare_login_scope-Prepared url identity s t h).1 [
      | inl kept ↦ rw kept.1 (refl, refl)
      | inr e ↦ rw e (refl, refl)
    ]
scope-SameRows s t (bind_device url identity client name user h) =
    let e = (record_authenticated_device-Recorded url identity client name user s t h).1 in
    rw e (refl, refl)
scope-SameRows s t (move_cursor now text h) =
    let h1 = >>-eq-ok (validate_non_empty "server_cursor" text) _ h in
    let e = sym (ok_parts h1).1 in rw e (refl, refl)
scope-SameRows s t (note_error error h) =
    let h1 = >>-eq-ok (validate_non_empty "last_server_error" error) _ h in
    let e = sym (ok_parts h1).1 in rw e (refl, refl)
scope-SameRows s t (note_push now h) = let e = sym (ok_parts h).1 in rw e (refl, refl)

pub logout-SameRows :
    (s t : LocalStore)
    → invalidate_authenticated_scope s ≡ ok (tt, t)
    → (t.skills ≡ s.skills) × (t.mutations ≡ s.mutations)
unfolding invalidate_authenticated_scope
logout-SameRows s t h = let e = sym (ok_parts h).1 in rw e (refl, refl)

switched_rows :
    (test : Bool) (s a t : LocalStore)
    → (a.skills ≡ s.skills) × (a.mutations ≡ s.mutations)
    → ◌≡◌ {A = Result (Unit {0} × LocalStore)}
        (if test then ok (tt, a) else ok (tt, s))
        (ok (tt, t))
    → (t.skills ≡ s.skills) × (t.mutations ≡ s.mutations)
switched_rows true s a t same h = let e = sym (ok_parts h).1 in rw e same
switched_rows false s a t same h = let e = sym (ok_parts h).1 in rw e (refl, refl)

pub switch-SameRows :
    (url : String) (s t : LocalStore)
    → prepare_server_switch url s ≡ ok (tt, t)
    → (t.skills ≡ s.skills) × (t.mutations ≡ s.mutations)
unfolding prepare_server_switch
switch-SameRows url s t h =
    let test =
      ltb 0 (local_rows s) && established_server s.sync && differs_from url s.sync.server_url in
    let refusal =
      invalid_input
        "local data belongs to another server; synchronize or clear it before switching" in
    let h1 = >>-eq-ok (validate_non_empty "server_url" url) _ h in
    let h2 = >>-eq-ok (reject_if test refusal) _ h1 in
    switched_rows
      (is_none s.sync.server_url
        || differs_from url s.sync.server_url
        || not (scope_complete s.sync))
      s (record s { sync = switched url s.sync }) t (refl, refl) h2

-- As long as the store has rows and is bound to a server and a user, no sequence of logins,
-- registrations of authenticated devices (`record_authenticated_device`), cursor advances and recorded
-- results, short of a logout, a change of the server address or a call of `record_device_registration`,
-- binds it to another server or another user, or touches its skills and mutations.
pub account_never_crosses :
    (url user : String) (s t : LocalStore)
    → ScopeSteps s t
    → ltb 0 (local_rows s) ≡ true
    → (s.sync.server_url ≡ some url) × (s.sync.server_user_id ≡ some user)
    → ((t.sync.server_url ≡ some url) × (t.sync.server_user_id ≡ some user))
      × (t.skills ≡ s.skills)
      × (t.mutations ≡ s.mutations)
account_never_crosses url user s t stay rows bound = (bound, refl, refl)
account_never_crosses url user s u (next {t = t} step steps) rows bound =
    let (still, (es, em)) = step-Bound url user s t step rows bound in
    let (finally, es', em') = account_never_crosses url user t u steps (rw (es, em) rows) still in
    (finally, es' ∙ es, em' ∙ em)
