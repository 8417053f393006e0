-- ===== src/Deploy/Stages.antt =====
-- A transaction that replaces a target: whatever fails, and wherever the process dies.
use skill_hive.Prelude.{String, ◌≡◌, Bool, true, false, Option, none, some, List, inl, inr, is_some}
use skill_hive.Deploy.Journal.{
  DeploymentError, DeploymentJournal, DeploymentResult, prepared, old_moved,
}
use skill_hive.Deploy.Machine.{
  Disk, Fate, Outcome, returned, failed, stopped, Snapshots, raise, finish, die, ◌>>◌,
}
use skill_hive.Deploy.Engine.{
  in_phase, materialize_into, stage, discard_staging, after_staging, caught, staged, reject_active,
  refuse_active, set_old_aside,
}
use skill_hive.Deploy.Rules.{
  Ends, Always, Proves, then-Proves, look-Proves, write-Proves, sync-Proves, when-Proves,
  refuse_if-Proves, raise-Proves, ignoring-Proves, if-Proves, weaken-Proves,
}
use skill_hive.Deploy.Records.{IsOwn}
use skill_hive.Deploy.Steps.{
  On, Untouched, Aside, Moved, Kept, sync-On, remove_staging-On, persist-On, remove_journal-On,
}
use skill_hive.Deploy.Moves.{move_old-On, rollback-On}

module _ {Tree : Type 0} (sn : Snapshots Tree) (hash : String) (old : Tree) where
  -- While a tree is staged, the old target stays where it is.
  materialize-On :
      (tree : Option Tree) {d : Disk Tree}
      → On hash (Untouched old) d
      → Proves
          (materialize_into sn tree)
          (Always (On hash (Untouched old)))
          (On hash (Untouched old))
          d
  unfolding materialize_into
  materialize-On none on = raise-Proves _ on
  materialize-On (some tree) on =
      write-Proves _ _ (record { own = on.own; held = on.held })
        (λ r. record { own = on.own; held = on.held })

  stage-On :
      (j : DeploymentJournal)
      → IsOwn hash j
      → {d : Disk Tree} → On hash (Untouched old) d
      → Proves (stage sn j) (Always (On hash (Untouched old))) (On hash (Untouched old)) d
  unfolding stage
  stage-On j own on = look-Proves _ _ (
      then-Proves (On hash (Untouched old)) (refuse_if-Proves _ _ on (λ f. on)) (λ d on.
        then-Proves (On hash (Untouched old)) (materialize-On (sn.materialize j.snapshot_hash) on)
          (λ d on. look-Proves _ _ (
            then-Proves (On hash (Untouched old)) (refuse_if-Proves _ _ on (λ f. on)) (λ d on.
              then-Proves (On hash (Untouched old)) (sync-Proves on on)
                (λ d on. persist-On (Untouched old) (λ a b h. h) on (in_phase prepared j) own))))))

  discard-On :
      {d : Disk Tree}
      → On hash (Untouched old) d
      → Proves (discard_staging sn) (Always (On hash (Untouched old))) (On hash (Untouched old)) d
  unfolding discard_staging
  discard-On {d} on = look-Proves _ _ (
      then-Proves (On hash (Untouched old))
        (when-Proves (is_some d.staging)
          (λ t.
            then-Proves (On hash (Untouched old))
              (ignoring-Proves (remove_staging-On (Untouched old) (λ a b h. h) on))
              (λ d on. ignoring-Proves (sync-Proves on on)))
          (λ f. on))
        (λ d on. ignoring-Proves (
          weaken-Proves (λ u d p. p.0) (λ d on. on)
            (remove_journal-On (Untouched old) (λ a b h. h) on))))

  pub Untouched-Kept : (d : Disk Tree) → On hash (Untouched old) d → On hash (Kept sn hash old) d
  Untouched-Kept d on = record { own = on.own; held = inl on.held }

  refused-On :
      (e : DeploymentError) {d : Disk Tree}
      → On hash (Untouched old) d
      → Proves
          (discard_staging sn >> raise e)
          (Always (On hash (Untouched old)))
          (On hash (Kept sn hash old))
          d
  refused-On e on =
      then-Proves (On hash (Untouched old))
        (weaken-Proves (λ u d on. on) Untouched-Kept (discard-On on))
        (λ d on. raise-Proves e (Untouched-Kept d on))

  caught-Ends :
      (r : Outcome (Unit {0}) × List (Fate Tree) × Disk Tree)
      → Ends (Always (On hash (Untouched old))) (On hash (Untouched old)) r
      → Ends (Always (On hash (Untouched old))) (On hash (Kept sn hash old)) (caught sn r)
  unfolding caught after_staging finish die
  caught-Ends (returned u, fates, d) h = h
  caught-Ends (failed e, fates, d) h = (refused-On e h).ends fates
  caught-Ends (stopped, fates, d) h = Untouched-Kept d h

  pub staged-On :
      (j : DeploymentJournal)
      → IsOwn hash j
      → {d : Disk Tree} → On hash (Untouched old) d
      → Proves (staged sn j) (Always (On hash (Untouched old))) (On hash (Kept sn hash old)) d
  unfolding staged
  staged-On j own {d} on = record {
    ends = λ fates. caught-Ends (stage sn j fates d) ((stage-On j own on).ends fates);
  }

  pub set_old_aside-On :
      (j : DeploymentJournal)
      → IsOwn hash j
      → {d : Disk Tree} → On hash (Untouched old) d
      → Proves (set_old_aside sn j) (Always (On hash (Aside old))) (On hash (Kept sn hash old)) d
  unfolding set_old_aside
  set_old_aside-On j own on =
      then-Proves (On hash (Moved old)) (move_old-On sn hash old on) (λ d on.
        then-Proves (On hash (Moved old)) (sync-On (Moved old) (λ a b h. inr (inl h.1)) on) (λ d on.
          persist-On (Aside old) (λ a b h. inr (inl h)) (record { own = on.own; held = on.held.1 })
            (in_phase old_moved j) own))

  aside_exists : (o : Option Tree) → o ≡ some old → is_some o ≡ false → ⊥
  aside_exists none h f = cc
  aside_exists (some t) h f = cc

  -- A candidate that does not verify gives way to the old target.
  pub refuse_active-On :
      {post : DeploymentResult → Disk Tree → Type 0} (replaced : Bool) (j : DeploymentJournal)
      → replaced ≡ true
      → {d : Disk Tree} → On hash (Aside old) d
      → Proves (refuse_active sn replaced j) post (On hash (Kept sn hash old)) d
  unfolding reject_active
  refuse_active-On false j replacing on = absurd (cc)
  refuse_active-On true j replacing {d} on =
      then-Proves (On hash (Untouched old))
        (look-Proves _ _ (
          look-Proves _ _ (
            if-Proves (is_some d.backup) (λ t. rollback-On sn hash old j on)
              (λ f. absurd (aside_exists d.backup on.held f)))))
        (λ d on.
          then-Proves (On hash (Kept sn hash old))
            (ignoring-Proves (
              weaken-Proves (λ u d p. p.0) (λ d on. on)
                (remove_journal-On (Kept sn hash old) (λ a b h. h) (Untouched-Kept d on))))
            (λ d on. raise-Proves _ on))
