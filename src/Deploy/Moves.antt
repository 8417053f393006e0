-- ===== src/Deploy/Moves.antt =====
-- The steps that move or remove the target: each keeps the old target or a verified one.
use skill_hive.Prelude.{String, refl, not, inl, inr, is_some}
use skill_hive.Deploy.Journal.{DeploymentJournal, activated}
use skill_hive.Deploy.Machine.{
  Disk, Snapshots, remove_destination, remove_backup, move_old, move_back, activate, restore_backup,
  rollback_active_to_backup,
}
use skill_hive.Deploy.Engine.{in_phase, seal}
use skill_hive.Deploy.Rules.{
  Always, Proves, then-Proves, look-Proves, write-Proves, when-Proves, refuse_if-Proves,
  finish-Proves,
}
use skill_hive.Deploy.Records.{IsOwn}
use skill_hive.Deploy.Steps.{
  On, Untouched, Aside, Moved, Active, Sealed, Kept, is_some-false, sync-On, persist-On,
}

module _ {Tree : Type 0} (sn : Snapshots Tree) (hash : String) (old : Tree) where
  module _ {d : Disk Tree} (on : On hash (Aside old) d) where
    pub aside-Kept : On hash (Kept sn hash old) d
    aside-Kept = record { own = on.own; held = inr (inl on.held) }

    remove_destination-On :
        Proves remove_destination (Always (On hash (Aside old))) (On hash (Kept sn hash old)) d
    unfolding remove_destination
    remove_destination-On =
        write-Proves _ _ (record { own = on.own; held = on.held })
          (λ r. record { own = on.own; held = inr (inl on.held) })

    pub activate-On :
        Proves (activate sn) (Always (On hash (Aside old))) (On hash (Kept sn hash old)) d
    unfolding activate
    activate-On =
        write-Proves _ _ (record { own = on.own; held = on.held })
          (λ r. record { own = on.own; held = inr (inl on.held) })

  pub move_old-On :
      {d : Disk Tree}
      → On hash (Untouched old) d
      → Proves move_old (Always (On hash (Moved old))) (On hash (Kept sn hash old)) d
  unfolding move_old
  move_old-On on =
      write-Proves _ _ (record { own = on.own; held = (refl, on.held.0) })
        (λ r. record { own = on.own; held = inl on.held })

  move_back-On :
      {d : Disk Tree}
      → On hash (Moved old) d
      → Proves move_back (Always (On hash (Untouched old))) (On hash (Kept sn hash old)) d
  unfolding move_back
  move_back-On on =
      write-Proves _ _ (record { own = on.own; held = (on.held.1, refl) })
        (λ r. record { own = on.own; held = inr (inl on.held.1) })

  remove_backup-On :
      {d : Disk Tree}
      → On hash (Active sn hash) d
      → Proves remove_backup (Always (On hash (Sealed sn hash))) (On hash (Kept sn hash old)) d
  unfolding remove_backup
  remove_backup-On on =
      write-Proves _ _ (record { own = on.own; held = (on.held, refl) })
        (λ r. record { own = on.own; held = inr (inr on.held) })

  pub restore_backup-On :
      (j : DeploymentJournal) {d : Disk Tree}
      → On hash (Aside old) d
      → Proves (restore_backup j) (Always (On hash (Untouched old))) (On hash (Kept sn hash old)) d
  unfolding restore_backup
  restore_backup-On j {d} on = look-Proves _ _ (
      look-Proves _ _ (
        then-Proves (λ e. On hash (Moved old) e)
          (refuse_if-Proves (is_some d.destination) _ (aside-Kept on)
            (λ f. record { own = on.own; held = (is_some-false d.destination f, on.held) }))
          (λ e away.
            then-Proves (On hash (Moved old))
              (refuse_if-Proves (not (is_some d.backup)) _
                (aside-Kept (record { own = away.own; held = away.held.1 })) (λ f. away))
              (λ e away.
                then-Proves (On hash (Untouched old)) (move_back-On away)
                  (λ e back. sync-On (Untouched old) (λ a b h. inl h) back)))))

  pub rollback-On :
      (j : DeploymentJournal) {d : Disk Tree}
      → On hash (Aside old) d
      → Proves
          (rollback_active_to_backup j)
          (Always (On hash (Untouched old)))
          (On hash (Kept sn hash old))
          d
  unfolding rollback_active_to_backup
  rollback-On j {d} on = look-Proves _ _ (
      then-Proves (On hash (Aside old))
        (when-Proves (is_some d.destination) (λ t. remove_destination-On on) (λ f. on))
        (λ e aside. restore_backup-On j aside))

  pub seal-On :
      (j : DeploymentJournal)
      → IsOwn hash j
      → {d : Disk Tree} → On hash (Active sn hash) d
      → Proves (seal sn j) (λ r. On hash (Sealed sn hash)) (On hash (Kept sn hash old)) d
  unfolding seal
  seal-On j own {d} on =
      then-Proves (On hash (Active sn hash))
        (persist-On (Active sn hash) (λ a b h. inr (inr h)) on (in_phase activated j) own)
        (λ e on. look-Proves _ _ (
          then-Proves (On hash (Sealed sn hash))
            (when-Proves (is_some e.backup)
              (λ t.
                then-Proves (On hash (Sealed sn hash)) (remove_backup-On on)
                  (λ e done. sync-On (Sealed sn hash) (λ a b h. inr (inr h.0)) done))
              (λ f. record { own = on.own; held = (on.held, is_some-false e.backup f) }))
            (λ e done. finish-Proves _ done)))
