-- ===== src/Deploy/Recovered.antt =====
-- The recovery of a transaction that replaced a target, branch by branch.
use skill_hive.Prelude.{
  String, ◌≡◌, refl, Bool, true, false, not, Option, none, some, ◌⊎◌, inl, inr, is_some,
}
use skill_hive.Deploy.Journal.{DeploymentJournal}
use skill_hive.Deploy.Machine.{Disk, Snapshots, Run, verified_entry}
use skill_hive.Deploy.Recovery.{
  RecoveryOutcome, committed, rolled_back, sealed, forget, drop_staging, put_back, give_up_staging,
  go_forward, activate_verified_staging, verify_active_or_restore_backup,
}
use skill_hive.Deploy.Rules.{
  Proves, bind-Proves, then-Proves, look-Proves, when-Proves, refuse_if-Proves, finish-Proves,
  if-Proves,
}
use skill_hive.Deploy.Records.{IsOwn}
use skill_hive.Deploy.Steps.{
  On, Untouched, Aside, Active, Sealed, Kept, is_some-false, sync-On, remove_staging-On,
  remove_journal-On,
}
use skill_hive.Deploy.Moves.{aside-Kept, activate-On, restore_backup-On, rollback-On, seal-On}

module _ {Tree : Type 0} (sn : Snapshots Tree) (hash : String) (old : Tree) where
  -- No backup is left, and the old target or a verified tree is in place.
  abbrev pub Resolved : Option Tree → Option Tree → Type 0
  Resolved destination backup = Untouched old destination backup ⊎ Sealed sn hash destination backup

  -- What a recovery that returns has made of the disk.
  abbrev pub Recovered : RecoveryOutcome → Disk Tree → Type 0
  Recovered (committed result) d = On hash (Sealed sn hash) d
  Recovered rolled_back d = On hash Resolved d × (d.journal ≡ none)

  abbrev pub Recovers : Run Tree RecoveryOutcome → Disk Tree → Type 0
  Recovers run d = Proves run Recovered (On hash (Kept sn hash old)) d

  Resolved-Kept : (a b : Option Tree) → Resolved a b → Kept sn hash old a b
  Resolved-Kept a b (inl h) = inl h
  Resolved-Kept a b (inr (h, e)) = inr (inr h)

  -- Without a backup, what is kept is in its place.
  pub Kept-Resolved : (a b : Option Tree) → Kept sn hash old a b → is_some b ≡ false → Resolved a b
  Kept-Resolved a b (inl h) f = inl h
  Kept-Resolved a none (inr (inl h)) f = cc
  Kept-Resolved a (some t) (inr (inl h)) f = cc
  Kept-Resolved a b (inr (inr h)) f = inr (h, is_some-false b f)

  -- With a backup and no verified target, the backup is the old target.
  pub Kept-Aside :
      (a b : Option Tree)
      → Kept sn hash old a b
      → is_some b ≡ true
      → verified_entry sn hash a ≡ false
      → Aside old a b
  Kept-Aside a none k e f = cc
  Kept-Aside a (some t) (inl h) e f = cc
  Kept-Aside a (some t) (inr (inl h)) e f = h
  Kept-Aside a (some t) (inr (inr h)) e f = cc

  pub absent_unverified : (a : Option Tree) → is_some a ≡ false → verified_entry sn hash a ≡ false
  absent_unverified none f = refl
  absent_unverified (some t) f = cc

  not-false : (b : Bool) → not b ≡ false → b ≡ true
  not-false true h = refl
  not-false false h = cc

  sealed-On :
      (j : DeploymentJournal)
      → IsOwn hash j
      → {d : Disk Tree} → On hash (Active sn hash) d
      → Recovers (sealed sn j) d
  unfolding sealed
  sealed-On j own on =
      bind-Proves (λ r. On hash (Sealed sn hash)) (seal-On sn hash old j own on)
        (λ r d done. finish-Proves (committed r) done)

  pub forget-On : {d : Disk Tree} → On hash Resolved d → Recovers (forget sn) d
  unfolding forget
  forget-On on =
      then-Proves (λ d. On hash Resolved d × (d.journal ≡ none))
        (remove_journal-On Resolved Resolved-Kept on) (λ d h. finish-Proves rolled_back h)

  pub drop_staging-On : {d : Disk Tree} → On hash Resolved d → Recovers (drop_staging sn) d
  unfolding drop_staging
  drop_staging-On on =
      then-Proves (On hash Resolved) (remove_staging-On Resolved Resolved-Kept on) (λ d on.
        then-Proves (On hash Resolved) (sync-On Resolved Resolved-Kept on) (λ d on. forget-On on))

  pub put_back-On :
      (j : DeploymentJournal) {d : Disk Tree} → On hash (Aside old) d → Recovers (put_back sn j) d
  unfolding put_back
  put_back-On j on =
      then-Proves (On hash (Untouched old)) (restore_backup-On sn hash old j on)
        (λ d on. forget-On (record { own = on.own; held = inl on.held }))

  give_up-On :
      (j : DeploymentJournal) {d : Disk Tree}
      → On hash (Aside old) d
      → Recovers (give_up_staging sn j) d
  unfolding give_up_staging
  give_up-On j {d} on = look-Proves _ _ (
      look-Proves _ _ (
        then-Proves (On hash (Aside old))
          (refuse_if-Proves _ _ (aside-Kept sn hash old on) (λ f. on))
          (λ d on.
            then-Proves (On hash (Aside old))
              (when-Proves _ (λ t. remove_staging-On (Aside old) (λ a b h. inr (inl h)) on)
                (λ f. on))
              (λ d on. put_back-On j on))))

  go_forward-On :
      (j : DeploymentJournal)
      → IsOwn hash j
      → {d : Disk Tree} → On hash (Aside old) d
      → Recovers (go_forward sn j) d
  unfolding go_forward
  go_forward-On j own on = then-Proves (On hash (Aside old)) (activate-On sn hash old on) (λ d on.
      then-Proves (On hash (Aside old)) (sync-On (Aside old) (λ a b h. inr (inl h)) on) (λ d on.
        look-Proves _ _ (
          then-Proves (On hash (Active sn hash))
            (refuse_if-Proves _ _ (aside-Kept sn hash old on)
              (λ f. record { own = on.own; held = rw (← own.0) (not-false _ f) }))
            (λ d on. sealed-On j own on))))

  pub activate_verified-On :
      (j : DeploymentJournal)
      → IsOwn hash j
      → {d : Disk Tree} → On hash (Aside old) d
      → Recovers (activate_verified_staging sn j) d
  unfolding activate_verified_staging
  activate_verified-On j own on =
      look-Proves _ _ (if-Proves _ (λ t. go_forward-On j own on) (λ f. give_up-On j on))

  pub verify_active-On :
      (j : DeploymentJournal)
      → IsOwn hash j
      → {d : Disk Tree} → On hash (Kept sn hash old) d
      → Recovers (verify_active_or_restore_backup sn j) d
  unfolding verify_active_or_restore_backup
  verify_active-On j own {d} on = look-Proves _ _ (
      look-Proves _ _ (
        look-Proves _ _ (
          if-Proves _
            (λ t.
              then-Proves (On hash (Active sn hash))
                (when-Proves _
                  (λ s.
                    remove_staging-On (Active sn hash) (λ a b h. inr (inr h))
                      (record { own = on.own; held = rw (← own.0) t }))
                  (λ f. record { own = on.own; held = rw (← own.0) t }))
                (λ d on. sealed-On j own on))
            (λ f.
              then-Proves (On hash (Aside old))
                (refuse_if-Proves _ _ on (λ b. record {
                  own = on.own;
                  held = Kept-Aside d.destination d.backup on.held (not-false _ b) (rw (← own.0) f);
                }))
                (λ d on.
                  then-Proves (On hash (Untouched old)) (rollback-On sn hash old j on)
                    (λ d on. forget-On (record { own = on.own; held = inl on.held })))))))
