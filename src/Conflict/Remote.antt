-- ===== src/Conflict/Remote.antt =====
-- What keep-remote adopts.
use skill_hive.Prelude.{
  String, ◌≡◌, ◌≢◌, refl, sym, ap, Bool, true, false, not, some, Memᴰ, arith, ◌==◌, eq_iff,
  find_where, update_where, find_where-update_hit, find_where-update_miss,
}
use skill_hive.Store.{
  LocalSkill, LocalMutation, LocalStore, SkillSyncState, is_conflict, is_conflicted, ok, >>=-eq-ok,
  >>-eq-ok, ok_parts, reject_if-passed,
}
use skill_hive.Outbox.{has_skill_id}
use skill_hive.Outbox.Invariant.{IsOutbox}
use skill_hive.Conflict.Resolve.{
  ResolutionApplied, is_conflict_of, read_skill_for_resolution, superseded_mutation,
  supersede_conflict_chain, known_remote_hash, adopted_skill, resolve_keep_remote,
}
use skill_hive.Conflict.Keeps.{superseded_none, read_conflicted, supersede-IsOutbox}

module _ (skill_id : String) (confirmed : Bool) (s : LocalStore) where
  abbrev pub KeptRemote : LocalStore → Type 0
  KeptRemote t =
      (skill : LocalSkill) × (hash : String) × (confirmed ≡ true)
      × (read_skill_for_resolution skill_id s ≡ ok skill)
      × (known_remote_hash skill_id skill ≡ ok hash)
      × (t ≡ record (supersede_conflict_chain skill_id s) {
        skills =
            update_where (has_skill_id skill_id) (adopted_skill hash)
              (supersede_conflict_chain skill_id s).skills;
      })

  pub resolve_keep_remote-KeptRemote :
      (applied : ResolutionApplied) (t : LocalStore)
      → resolve_keep_remote skill_id confirmed s ≡ ok (applied, t)
      → KeptRemote t
  unfolding resolve_keep_remote
  resolve_keep_remote-KeptRemote applied t h =
      let passed = reject_if-passed (not confirmed) _ _ h in
      let h1 = >>-eq-ok _ _ h in
      let (skill, read, h2) = >>=-eq-ok _ _ h1 in
      let (hash, known, h3) = >>=-eq-ok _ _ h2 in
      let (ea, et) = ok_parts h3 in (skill, hash, agreed_to passed, read, known, sym et)
    where
      agreed_to : not confirmed ≡ false → confirmed ≡ true
      agreed_to e = ground arith

  -- Keep-remote keeps the invariant of the outbox.
  pub resolve_keep_remote-IsOutbox :
      (applied : ResolutionApplied) (t : LocalStore)
      → resolve_keep_remote skill_id confirmed s ≡ ok (applied, t)
      → IsOutbox s.mutations
      → IsOutbox t.mutations
  unfolding supersede_conflict_chain
  resolve_keep_remote-IsOutbox applied t h box =
      let (skill, hash, agreed, read, known, et) = resolve_keep_remote-KeptRemote applied t h in
      rw et (supersede-IsOutbox skill_id s box)

remote_hash_known :
    (skill_id : String) (skill : LocalSkill) (hash : String)
    → known_remote_hash skill_id skill ≡ ok hash
    → (skill.remote_blob_hash ≡ some hash) × ((hash == "") ≡ false)
unfolding known_remote_hash
remote_hash_known skill_id skill hash h = (ground arith, ground arith)

-- A keep-remote resolution that succeeds was confirmed, for a skill in conflict with a known remote
-- hash that is not empty. The skill adopts that hash as remote only, its mutations that were in
-- conflict are retired as acknowledged and no other mutation changes; the cursor and the account
-- scope are untouched, and so is every other skill.
pub keep_remote_effect :
    (skill_id : String) (confirmed : Bool) (s t : LocalStore) (applied : ResolutionApplied)
    → resolve_keep_remote skill_id confirmed s ≡ ok (applied, t)
    → (confirmed ≡ true)
      × ((old : LocalSkill) × (new : LocalSkill) × (find_where (has_skill_id skill_id) s.skills
            ≡ some old)
          × (is_conflicted old.sync_state ≡ true)
          × (find_where (has_skill_id skill_id) t.skills ≡ some new)
          × (new.sync_state ≡ SkillSyncState.remote_only)
          × (old.remote_blob_hash ≡ some new.current_blob_hash)
          × ((new.current_blob_hash == "") ≡ false))
      × (t.mutations ≡ update_where (is_conflict_of skill_id) superseded_mutation s.mutations)
      × ((m : LocalMutation)
          → Memᴰ m t.mutations
          → m.skill_id ≡ skill_id
          → is_conflict m.state ≡ false)
      × ((other : String)
          → other ≢ skill_id
          → find_where (has_skill_id other) t.skills ≡ find_where (has_skill_id other) s.skills)
      × (t.sync ≡ s.sync)
unfolding supersede_conflict_chain
keep_remote_effect skill_id confirmed s t applied h =
    let (skill, hash, agreed, read, known, et) =
      resolve_keep_remote-KeptRemote skill_id confirmed s applied t h in
    let em : t.mutations ≡ update_where (is_conflict_of skill_id) superseded_mutation s.mutations =
      ap (λ (r : LocalStore). r.mutations) et in
    let es : t.skills ≡ update_where (has_skill_id skill_id) (adopted_skill hash) s.skills =
      ap (λ (r : LocalStore). r.skills) et in
    let esync : t.sync ≡ s.sync = ap (λ (r : LocalStore). r.sync) et in
    let (found, conflicted) = read_conflicted skill_id s skill read in
    let (remote, filled) = remote_hash_known skill_id skill hash known in
    (
      agreed,
      (
        skill,
        adopted_skill hash skill,
        found,
        conflicted,
        rw es (
            find_where-update_hit (has_skill_id skill_id) (adopted_skill hash) s.skills skill
              (λ x. refl) found),
        refl,
        remote,
        filled,
      ),
      em,
      (λ m inside same. superseded_none skill_id s.mutations m (rw em at inside) same),
      (λ other differ. rw es (
          find_where-update_miss (has_skill_id other) (adopted_skill hash) (has_skill_id skill_id)
            s.skills (λ x. refl) (λ x hit. apart x.id other skill_id hit differ))),
      esync,
    )
  where
    apart : (a other id : String) → (a == other) ≡ true → other ≢ id → (a == id) ≡ false
    apart a other id hit differ = ground (arith, eq_iff a other, eq_iff a id)
