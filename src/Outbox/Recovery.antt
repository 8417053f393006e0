-- ===== src/Outbox/Recovery.antt =====
-- Releasing and recovering mutations in flight.
use skill_hive.Prelude.{
  ℕ, String, ◌≡◌, refl, subst, true, false, List, [], ◌∷◌, map, Memᴰ, arith, eq_iff, ltb→lt,
  not_exists_where, count_where, update_where, update_where-mem, mem-update_where,
}
use skill_hive.Store.{LocalMutation, LocalStore, is_in_flight, ok}
use skill_hive.Outbox.Dispatch.{
  is_dispatchable, blocks, is_releasable, requeue, release_each, release_in_flight_mutations,
  recovered, flies, recover_in_flight_mutations,
}
use skill_hive.Outbox.Invariant.{IsClear, IsOutbox, IsTame, update-IsOutbox}

requeue-IsTame :
    (id : String) (table : List LocalMutation) → IsTame (is_releasable id) requeue table
requeue-IsTame id table = record {
  keeps_id = λ x. refl;
  keeps_skill = λ x. refl;
  keeps_sequence = λ x. refl;
  keeps_acked = λ x mx h acked. ground arith;
  flies_clear = λ x mx h flying. cc;
}

release_each-IsOutbox :
    (ids : List String) (table : List LocalMutation)
    → IsOutbox table
    → IsOutbox (release_each ids table).1
unfolding release_each
release_each-IsOutbox [] table box = box
release_each-IsOutbox (id ∷ ids) table box =
    release_each-IsOutbox ids (update_where (is_releasable id) requeue table)
      (update-IsOutbox (is_releasable id) requeue table (requeue-IsTame id table) box)

-- Releasing the tail of a batch keeps the invariant of the outbox.
pub release-IsOutbox :
    (ids : List String) (s : LocalStore) (n : ℕ) (t : LocalStore)
    → release_in_flight_mutations ids s ≡ ok (n, t)
    → IsOutbox s.mutations
    → IsOutbox t.mutations
unfolding release_in_flight_mutations
release-IsOutbox ids s n t h box =
    let e : t.mutations ≡ (release_each ids s.mutations).1 = ground arith in
    rw e (release_each-IsOutbox ids s.mutations box)

recovered-IsTame : (table : List LocalMutation) → IsTame flies recovered table
recovered-IsTame table = record {
  keeps_id = λ x. refl;
  keeps_skill = λ x. refl;
  keeps_sequence = λ x. refl;
  keeps_acked = λ x mx h acked. ground arith;
  flies_clear = λ x mx h flying. cc;
}

-- Recovery keeps the invariant of the outbox.
pub recover-IsOutbox :
    (s : LocalStore) (n : ℕ) (t : LocalStore)
    → recover_in_flight_mutations s ≡ ok (n, t)
    → IsOutbox s.mutations
    → IsOutbox t.mutations
unfolding recover_in_flight_mutations
recover-IsOutbox s n t h box =
    let e : t.mutations ≡ update_where flies recovered s.mutations = ground arith in
    rw e (update-IsOutbox flies recovered s.mutations (recovered-IsTame s.mutations) box)

recovered_ids :
    (table : List LocalMutation)
    → map (λ (m : LocalMutation). m.id) (update_where flies recovered table)
      ≡ map (λ (m : LocalMutation). m.id) table
recovered_ids [] = refl
recovered_ids (m ∷ ms) = ground (arith, recovered_ids ms)

not_flying :
    (table : List LocalMutation) (m : LocalMutation)
    → Memᴰ m (update_where flies recovered table)
    → is_in_flight m.state ≡ false
not_flying table m h = let (x, mx, ex) = update_where-mem flies recovered table h in ground arith

not_flying_kept :
    (table : List LocalMutation) (m : LocalMutation)
    → Memᴰ m table
    → is_in_flight m.state ≡ false
    → Memᴰ m (update_where flies recovered table)
not_flying_kept table m h grounded =
    subst (λ r. Memᴰ r (update_where flies recovered table)) (ground arith)
      (mem-update_where flies recovered table h)

-- Recovery after a restart succeeds on every store: it keeps the identifiers of all mutations in
-- their order, leaves none in flight, and leaves every mutation that was not in flight as it was.
pub recover_keeps_ids :
    (s : LocalStore)
    → (n : ℕ) × (t : LocalStore) × (recover_in_flight_mutations s ≡ ok (n, t))
      × (map (λ (m : LocalMutation). m.id) t.mutations
          ≡ map (λ (m : LocalMutation). m.id) s.mutations)
      × ((m : LocalMutation) → Memᴰ m t.mutations → is_in_flight m.state ≡ false)
      × ((m : LocalMutation)
          → Memᴰ m s.mutations
          → is_in_flight m.state ≡ false
          → Memᴰ m t.mutations)
unfolding recover_in_flight_mutations
recover_keeps_ids s = (
  count_where flies s.mutations,
  record s { mutations = update_where flies recovered s.mutations },
  refl,
  recovered_ids s.mutations,
  not_flying s.mutations,
  not_flying_kept s.mutations,
)

clear_after_recovery :
    (table : List LocalMutation) (m : LocalMutation)
    → IsClear table m
    → (e : LocalMutation) → Memᴰ e (update_where flies recovered table)
    → blocks (recovered m) e ≡ false
clear_after_recovery table m clear e h =
    let (x, mx, ex) = update_where-mem flies recovered table h in
    ground (
      arith,
      clear x mx,
      eq_iff x.skill_id m.skill_id,
      eq_iff e.skill_id m.skill_id,
      ltb→lt x.local_sequence m.local_sequence,
      ltb→lt e.local_sequence m.local_sequence,
    )

-- From a store whose outbox satisfies the invariant, a mutation that was in flight is in the
-- outbox after recovery under its own identifier, and may be dispatched at once.
pub recover_dispatchable :
    (s : LocalStore) (n : ℕ) (t : LocalStore)
    → recover_in_flight_mutations s ≡ ok (n, t)
    → IsOutbox s.mutations
    → (m : LocalMutation) (now : ℕ) → Memᴰ m s.mutations
    → is_in_flight m.state ≡ true
    → Memᴰ (recovered m) t.mutations × (is_dispatchable now t.mutations (recovered m) ≡ true)
unfolding recover_in_flight_mutations
recover_dispatchable s n t h box m now inside flying =
    let e : t.mutations ≡ update_where flies recovered s.mutations = ground arith in
    let free =
      not_exists_where (blocks (recovered m)) (update_where flies recovered s.mutations)
        (clear_after_recovery s.mutations m (box.causal m inside flying)) in
    rw e (
      subst (λ r. Memᴰ r (update_where flies recovered s.mutations)) (ground arith)
          (mem-update_where flies recovered s.mutations inside),
      rw free refl,
    )
