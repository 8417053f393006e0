-- ===== src/Sync/Steps.antt =====
-- A cycle does to the store what its protocol allows, wherever the cycle stops.
use skill_hive.Prelude.{
  ℕ, zero, suc, String, ◌≡◌, Bool, true, refl, arith, false, ◌⊎◌, inl, inr, Memᴰ, Bool-cases,
}
use skill_hive.Store.{LocalStore, LocalMutation, is_acked}
use skill_hive.Scope.{differs_from}
use skill_hive.Pull.{ChangesPage}
use skill_hive.Store.Keys.{IsKeyed}
use skill_hive.Outbox.Invariant.{IsOutbox}
use skill_hive.Sync.Protocol.{CycleStep, Runs}
use skill_hive.Sync.Yields.{Holds, Yields, Anything, anything, bind-Yields, answered-Yields}
use skill_hive.Sync.Opens.{IsOpen, NeverAcked, runs-IsOpen}
use skill_hive.Sync.Wire.{Client, Device, SyncClientError}
use skill_hive.Sync.Push.{Step, ◌>>=◌, next, look, answered, when, finish, local_store}
use skill_hive.Sync.Drain.{
  PullError, PullSummary, fetched, turn, drained, pull_pages, pull_changes, empty_summary,
  max_pages_per_cycle,
}
use skill_hive.Sync.Cycle.{
  registered, usable, needs_record, open_session, bind_device, push, pull, run_cycle,
}
use skill_hive.Sync.Goes.{
  Goes, bind-Goes, finish-Goes, raise-Goes, look-Goes, answered-Goes, when-Goes, stored-Goes,
  attempt-Goes, stored-Runs, bind-Goes-Yields, answered-bind-Goes,
}
use skill_hive.Sync.Dispatches.{push_each-Goes}

module _ (c : Client) where
  turn-Goes :
      (page : ChangesPage) (summary : PullSummary) {again : Step PullError PullSummary}
      → Goes c again
      → Goes c (turn c page summary again)
  unfolding turn
  turn-Goes page summary h = elim (Bool-cases (drained page summary)) [
    | inl over ↦ rw over (finish-Goes c _)
    | inr more ↦ rw more h
  ]

  fetched-page :
      (answer : String ⊎ ChangesPage) (page : ChangesPage)
      → fetched answer ≡ inr page
      → answer ≡ inr page
  fetched-page (inl text) page h = cc
  fetched-page (inr other) page h = ground arith

  pull_pages-Goes : (rounds : ℕ) (summary : PullSummary) → Goes c (pull_pages c rounds summary)
  unfolding pull_pages
  pull_pages-Goes zero summary = raise-Goes c _
  pull_pages-Goes (suc rounds) summary = bind-Goes c (look-Goes c _) (λ cursor.
      answered-bind-Goes c _ (λ page e. bind-Goes c (answered-Goes c _) (λ count.
        bind-Goes c
          (stored-Goes c _ _ (λ s applied t h.
            CycleStep.pulls summary.pages_applied cursor page applied (fetched-page _ page e) h))
          (λ applied. turn-Goes page _ (pull_pages-Goes rounds _)))))

module _ (c : Client) (error_text : PullError → String) where
  open_session-Goes : Goes c (open_session c error_text)
  unfolding open_session
  open_session-Goes = bind-Goes c (look-Goes c _) (λ scope.
      bind-Goes c (answered-Goes c _) (λ bound. bind-Goes c (answered-Goes c _) (λ session.
        bind-Goes c (stored-Goes c _ _ (λ s id t h. CycleStep.names_client id h))
          (λ id. answered-Goes c _))))

  -- The server has registered the device, and has not revoked it.
  abbrev IsRegistered : Device → Type 0
  IsRegistered device =
      (instance_id : String) × (c.register_device instance_id ≡ inr device)
      × (device.is_revoked ≡ false)

  registered-IsRegistered :
      (instance_id : String) (answer : SyncClientError ⊎ Device)
      → c.register_device instance_id ≡ answer
      → Holds IsRegistered Anything (registered answer)
  registered-IsRegistered instance_id (inl e) h = tt
  registered-IsRegistered instance_id (inr device) h = unrevoked device.is_revoked refl
    where
      unrevoked :
          (revoked : Bool)
          → device.is_revoked ≡ revoked
          → Holds IsRegistered Anything (usable device revoked)
      unrevoked true e = tt
      unrevoked false e = (instance_id, h, e)

  open_session-Yields : Yields (open_session c error_text) IsRegistered Anything
  unfolding open_session
  open_session-Yields = bind-Yields Anything (anything _) (λ scope u.
      bind-Yields Anything (anything _) (λ bound u. bind-Yields Anything (anything _) (λ session u.
        bind-Yields Anything (anything _)
          (λ id u. answered-Yields _ (registered-IsRegistered id _ refl)))))

  bind_device-Goes :
      (device : Device) → IsRegistered device → Goes c (bind_device c error_text device)
  unfolding bind_device look answered ◌>>=◌ next when finish
  bind_device-Goes device (instance_id, known, valid) = record { goes = from }
    where
      from : (s : LocalStore) → Runs c s (bind_device c error_text device s).1
      from s = elim (Bool-cases (differs_from device.user_id s.sync.server_user_id)) [
        | inl other ↦ rw other Runs.done
        | inr same ↦ rw same (elim (Bool-cases (needs_record c.base_url device s.sync)) [
          | inl needed ↦ rw needed (
              stored-Runs c local_store _ s
                (λ u t h. CycleStep.binds_device instance_id _ device known valid same h))
          | inr kept ↦ rw kept Runs.done
        ])
      ]

  push-Goes : Goes c (push c error_text)
  unfolding push
  push-Goes = bind-Goes c (stored-Goes c _ _ (λ s rows t h. CycleStep.claims rows h)) (λ claimed.
      bind-Goes c (push_each-Goes c claimed) (λ pushed.
        bind-Goes c (when-Goes c _ (stored-Goes c _ _ (λ s u t h. CycleStep.notes_push h)))
          (λ noted. finish-Goes c pushed)))

  pull-Goes : Goes c (pull c error_text)
  unfolding pull pull_changes
  pull-Goes =
      bind-Goes c (attempt-Goes c (pull_pages-Goes c max_pages_per_cycle empty_summary)) (λ result.
        bind-Goes c (when-Goes c _ (stored-Goes c _ _ (λ s u t h. CycleStep.notes_error _ h)))
          (λ noted. answered-Goes c _))

  cycle-Goes : Goes c (run_cycle c error_text)
  unfolding run_cycle
  cycle-Goes =
      bind-Goes-Yields c IsRegistered open_session-Goes open_session-Yields (λ device known.
        bind-Goes c (bind_device-Goes device known) (λ bound. bind-Goes c push-Goes (λ pushed.
          bind-Goes c pull-Goes (λ summary.
            bind-Goes c (stored-Goes c _ _ (λ s ids t h. CycleStep.expires ids h))
              (λ expired. finish-Goes c _)))))

  -- Whatever the server answers, and wherever the cycle stops, a cycle does to the store what some
  -- sequence of the steps of its protocol does, each of them complete. Every outcome that it applies is an
  -- answer of the server, a transport error after an upload or a submission that failed, or a validation
  -- error after a request that the server refused; every page that it applies was fetched; and it binds
  -- the store to no device but one that the server registered and has not revoked, whose user is the one
  -- on record if there is one.
  pub cycle_refines_steps : (s : LocalStore) → Runs c s (run_cycle c error_text s).1
  cycle_refines_steps s = cycle-Goes.goes s

  -- A cycle from a store with unique skill keys and a sound outbox acknowledges nothing that the server
  -- has not: a mutation that is not acknowledged, and that no answer of the server names as acked, is
  -- after the cycle still in the outbox and still not acknowledged, for the same skill, with the same
  -- place, operation and payload, whatever else the server answers and wherever the cycle stops.
  pub cycle_keeps_work :
      (s : LocalStore) (m : LocalMutation)
      → IsKeyed s.skills × IsOutbox s.mutations
      → Memᴰ m s.mutations
      → is_acked m.state ≡ false
      → NeverAcked c m.id
      → IsOpen m (run_cycle c error_text s).1.mutations
  cycle_keeps_work s m sound inside open_row never =
      runs-IsOpen c m never s _ (cycle_refines_steps s) sound (m, inside, refl, open_row)
