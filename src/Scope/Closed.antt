-- ===== src/Scope/Closed.antt =====
-- Where the client fails closed, and what a logout opens.
use skill_hive.Prelude.{
  String, ◌≡◌, ◌≢◌, refl, sym, ap, ◌∙◌, Bool, true, false, not, ◌&&◌, ◌||◌, ◌⊎◌, inl, inr, Option,
  none, some, arith, eq_iff, eq_refl, ltb, if◌then◌else◌, Bool-cases, is_some, trim, is_blank,
}
use skill_hive.Store.{
  LocalStore, ok, invalid_input, >>-eq-ok, ok_parts, reject_if-passed, validate_non_empty,
}
use skill_hive.Scope.State.{
  local_rows, differs_from, scope_complete, prepare_login_scope, crosses_scope, authenticated,
  record_authenticated_device, out_of_scope, assert_server_scope, invalidate_authenticated_scope,
  ensure_client_instance_id,
}
use skill_hive.Scope.Trust.{prepare_login_scope-Prepared, record_authenticated_device-Recorded}

bound_to :
    (text : String) (bound : Option String)
    → is_some bound ≡ true
    → differs_from text bound ≡ false
    → bound ≡ some text
bound_to text none known same = cc
bound_to text (some value) known same = ap some ((eq_iff value text).0 (ground arith))

scope_parts :
    (url : String) (s : LocalStore)
    → out_of_scope url s ≡ false
    → ltb 0 (local_rows s) ≡ true
    → (s.sync.server_url ≡ some url)
      × (is_some s.sync.server_login_identity ≡ true)
      × (is_some s.sync.server_user_id ≡ true)
scope_parts url s free rows =
    let (same, started, established) = free_parts _ _ _ _ _ free rows in
    let (has_url, has_user) = both _ _ established in
    let complete = completed _ _ started (rw has_url refl) in
    (bound_to url s.sync.server_url has_url same, middle _ _ _ complete, has_user)
  where
    free_parts :
        (differs started complete established rows : Bool)
        → (differs || (started && not complete) || (rows && not established)) ≡ false
        → rows ≡ true
        → (differs ≡ false) × ((started && not complete) ≡ false) × (established ≡ true)
    free_parts differs started complete established rows h k =
        (ground arith, ground arith, ground arith)

    both : (a b : Bool) → (a && b) ≡ true → (a ≡ true) × (b ≡ true)
    both a b h = (ground arith, ground arith)

    completed :
        (started complete : Bool)
        → (started && not complete) ≡ false
        → started ≡ true
        → complete ≡ true
    completed started complete h k = ground arith

    middle : (a b c : Bool) → (a && b && c) ≡ true → b ≡ true
    middle a b c h = ground arith

-- A store with rows passes the scope check for a server address only if it is bound to exactly that
-- address, with a login identity and a user.
pub scope_check_is_bound :
    (server_url : String) (s : LocalStore)
    → assert_server_scope server_url s ≡ ok tt
    → ltb 0 (local_rows s) ≡ true
    → (s.sync.server_url ≡ some server_url)
      × (is_some s.sync.server_login_identity ≡ true)
      × (is_some s.sync.server_user_id ≡ true)
unfolding assert_server_scope
scope_check_is_bound server_url s h rows =
    let refusal =
      invalid_input "local sync state is bound to a different or incomplete server/account scope" in
    let h1 = >>-eq-ok (validate_non_empty "server_url" server_url) _ h in
    let free = reject_if-passed (out_of_scope server_url s) refusal _ h1 in
    scope_parts server_url s free rows

-- After a logout no server address passes the scope check, if the store has rows or was bound to an
-- address.
pub logout_closes :
    (server_url : String) (s t : LocalStore)
    → invalidate_authenticated_scope s ≡ ok (tt, t)
    → (ltb 0 (local_rows s) ≡ true) ⊎ (is_some s.sync.server_url ≡ true)
    → assert_server_scope server_url t ≢ ok tt
unfolding invalidate_authenticated_scope assert_server_scope
logout_closes server_url s t h reason passed =
    let refusal =
      invalid_input "local sync state is bound to a different or incomplete server/account scope" in
    let e = sym (ok_parts h).1 in
    let h1 = >>-eq-ok (validate_non_empty "server_url" server_url) _ passed in
    let free = reject_if-passed (out_of_scope server_url t) refusal _ h1 in
    closed s.sync.server_url (ltb 0 (local_rows s)) (differs_from server_url s.sync.server_url)
      reason (rw e at free)
  where
    closed :
        (url : Option String) (rows differs : Bool)
        → (rows ≡ true) ⊎ (is_some url ≡ true)
        → (differs
            || ((is_some url || false || false || false) && not (is_some url && false && false))
            || (rows && not (is_some url && false)))
          ≡ false
        → ⊥
    closed url rows differs reason free = ground arith

-- If a cursor is left after a login and the device registration that follows it, the scope was
-- complete before the login and for the same address, the cursor is the one of then, and the user is
-- the same where the store has rows. Where it has none, nothing is said of the
-- user.
pub left_cursor_keeps_address :
    (server_url login_identity client device user : String) (s t u : LocalStore)
    → prepare_login_scope server_url login_identity s ≡ ok (tt, t)
    → record_authenticated_device server_url login_identity client device user t ≡ ok (tt, u)
    → is_some u.sync.server_cursor ≡ true
    → (scope_complete s.sync ≡ true)
      × (s.sync.server_url ≡ some server_url)
      × (ltb 0 (local_rows s) ≡ true → s.sync.server_user_id ≡ some user)
      × (u.sync.server_cursor ≡ s.sync.server_cursor)
left_cursor_keeps_address server_url login_identity client device user s t u prepared registered
      left =
    let (free, case) = prepare_login_scope-Prepared server_url login_identity s t prepared in
    let (kept, e) =
      record_authenticated_device-Recorded server_url login_identity client device user t u
        registered in
    let ec : u.sync.server_cursor ≡ (if scope_complete t.sync then t.sync.server_cursor else none) =
      ap (λ (r : LocalStore). r.sync.server_cursor) e in
    let (complete, known) =
      left_over (scope_complete t.sync) t.sync.server_cursor (ap is_some (sym ec) ∙ left) in
    elim case [
      | inl unchanged ↦
          let same = unchanged.1 in
          let (has_url, has_identity, has_user) = three _ _ _ complete in
          let (fits_url, fits_user) = neither _ _ kept in
          let url = bound_to server_url t.sync.server_url has_url fits_url in
          rw (sym same) (
            complete,
            url,
            (λ rows.
                bound_to user t.sync.server_user_id has_user
                  (expected _ _ _ rows has_url fits_user)),
            ec ∙ ap (λ b. if b then t.sync.server_cursor else none) complete,
          )
      | inr pending ↦
          absurd
            (clash (ap (λ (r : LocalStore). is_some r.sync.server_cursor) (sym pending) ∙ known))
    ]
  where
    clash : false ≡ true → ⊥
    clash h = cc

    left_over :
        (complete : Bool) (cursor : Option String)
        → is_some (if complete then cursor else none) ≡ true
        → (complete ≡ true) × (is_some cursor ≡ true)
    left_over true cursor h = (refl, h)
    left_over false cursor h = cc

    three : (a b c : Bool) → (a && b && c) ≡ true → (a ≡ true) × (b ≡ true) × (c ≡ true)
    three a b c h = (ground arith, ground arith, ground arith)

    neither : (a b : Bool) → (a || b) ≡ false → (a ≡ false) × (b ≡ false)
    neither a b h = (ground arith, ground arith)

    expected :
        (rows has_url : Bool) (bound : Option String)
        → rows ≡ true
        → has_url ≡ true
        → (rows && differs_from user (if has_url then bound else none)) ≡ false
        → differs_from user bound ≡ false
    expected rows has_url bound h k free = ground arith

-- The identity of the installation is drawn once: whatever a later call would draw, it returns the
-- identity that the first call returned and changes nothing.
pub instance_id_is_stable :
    (drawn drawn_later : String) (s t : LocalStore) (id : String)
    → ensure_client_instance_id drawn s ≡ ok (id, t)
    → ensure_client_instance_id drawn_later t ≡ ok (id, t)
unfolding ensure_client_instance_id
instance_id_is_stable drawn drawn_later s t id h = ground arith

registered_total :
    (server_url login_identity client device user : String) (s : LocalStore)
    → crosses_scope server_url user s ≡ false
    → is_blank server_url ≡ false
    → is_blank login_identity ≡ false
    → is_blank client ≡ false
    → is_blank device ≡ false
    → is_blank user ≡ false
    → record_authenticated_device server_url login_identity client device user s
      ≡ ok (
        tt,
        record s {
          sync = authenticated server_url (trim login_identity) client device user s.sync;
        },
      )
unfolding record_authenticated_device validate_non_empty
registered_total server_url login_identity client device user s free b1 b2 b3 b4 b5 =
    rw (b1, b2, b3, b4, b5, free) refl

-- After a logout the device registration of any account at the address of the store, with no blank
-- field, succeeds, even where the store has skills and mutations of another account, and leaves
-- them in place.
pub logout_forgets_account :
    (server_url login_identity client device user : String) (s t : LocalStore)
    → invalidate_authenticated_scope s ≡ ok (tt, t)
    → s.sync.server_url ≡ some server_url
    → is_blank server_url ≡ false
    → is_blank login_identity ≡ false
    → is_blank client ≡ false
    → is_blank device ≡ false
    → is_blank user ≡ false
    → (u : LocalStore) × (record_authenticated_device server_url login_identity client device user t
        ≡ ok (tt, u))
      × (u.sync.server_user_id ≡ some user)
      × (u.skills ≡ s.skills)
      × (u.mutations ≡ s.mutations)
unfolding invalidate_authenticated_scope
logout_forgets_account server_url login_identity client device user s t h bound b1 b2 b3 b4 b5 =
    let e = sym (ok_parts h).1 in
    (
      record t { sync = authenticated server_url (trim login_identity) client device user t.sync },
      registered_total server_url login_identity client device user t
          (rw e (free s.sync.server_url (ltb 0 (local_rows s)) bound)) b1 b2 b3 b4 b5,
      refl,
      ap (λ (r : LocalStore). r.skills) e,
      ap (λ (r : LocalStore). r.mutations) e,
    )
  where
    free :
        (url : Option String) (rows : Bool)
        → url ≡ some server_url
        → (differs_from server_url url
            || (rows && differs_from user (if is_some url then none else none)))
          ≡ false
    free url rows bound =
        rw (bound, eq_refl) (elim (Bool-cases rows) [ inl e ↦ rw e refl | inr e ↦ rw e refl ])
