-- ===== src/Deploy/Safety.antt =====
-- What a transaction that replaces a target guarantees, whatever fails and wherever the process dies.
use skill_hive.Prelude.{
  String, ◌≡◌, refl, Bool, true, false, Option, none, some, List, ◌⊎◌, inl, inr, is_some, ap,
}
use skill_hive.Deploy.Journal.{
  DeploymentJournal, DeploymentError, DeploymentRequest, DeploymentPhase, intent, prepared,
  old_moved, activated,
}
use skill_hive.Deploy.Machine.{Disk, Fate, Snapshots}
use skill_hive.Deploy.Engine.{in_phase, deploy_recorded, deploy, latest_entry}
use skill_hive.Deploy.Recovery.{
  recover_intent, recover_replacing, recover_moved, recover_activated, recover_phase, recover_read,
  recover_one,
}
use skill_hive.Deploy.Rules.{
  Ends, Proves, then-Proves, look-Proves, when-Proves, require-Proves, root-Proves, raise-Proves,
  if-Proves,
}
use skill_hive.Deploy.Records.{IsOwn, OwnLatest, latest-OwnLatest}
use skill_hive.Deploy.Steps.{On, Untouched, Aside, Sealed, Kept, sync-On, persist-On}
use skill_hive.Deploy.Moves.{activate-On, seal-On}
use skill_hive.Deploy.Stages.{Untouched-Kept, staged-On, set_old_aside-On, refuse_active-On}
use skill_hive.Deploy.Recovered.{
  Resolved, Recovered, Recovers, Kept-Resolved, Kept-Aside, absent_unverified, forget-On,
  drop_staging-On, put_back-On, activate_verified-On, verify_active-On,
}

module _ {Tree : Type 0} (sn : Snapshots Tree) (hash : String) (old : Tree) where
  module _ (j : DeploymentJournal) (own : IsOwn hash j) {d : Disk Tree}
      (on : On hash (Kept sn hash old) d) where
    in_place : is_some d.backup ≡ false → On hash (Resolved sn hash old) d
    in_place f = record { own = on.own; held = Kept-Resolved sn hash old _ _ on.held f }

    gone-Aside : is_some d.destination ≡ false → is_some d.backup ≡ true → On hash (Aside old) d
    gone-Aside f t = record {
      own = on.own;
      held = Kept-Aside sn hash old _ _ on.held t (absent_unverified sn hash old _ f);
    }

    intent-On :
        (s b : Bool) → is_some d.backup ≡ b → Recovers sn hash old (recover_intent sn j s b) d
    unfolding recover_intent
    intent-On true true eb = raise-Proves _ on
    intent-On false true eb = raise-Proves _ on
    intent-On true false eb = drop_staging-On sn hash old (in_place eb)
    intent-On false false eb = forget-On sn hash old (in_place eb)

    replacing-On :
        (x s b : Bool)
        → is_some d.destination ≡ x
        → is_some d.backup ≡ b
        → Recovers sn hash old (recover_replacing sn j x s b) d
    unfolding recover_replacing
    replacing-On true true false ex eb = drop_staging-On sn hash old (in_place eb)
    replacing-On false true true ex eb = activate_verified-On sn hash old j own (gone-Aside ex eb)
    replacing-On true false true ex eb = verify_active-On sn hash old j own on
    replacing-On false false true ex eb = put_back-On sn hash old j (gone-Aside ex eb)
    replacing-On true true true ex eb = raise-Proves _ on
    replacing-On true false false ex eb = raise-Proves _ on
    replacing-On false true false ex eb = raise-Proves _ on
    replacing-On false false false ex eb = raise-Proves _ on

    moved-On :
        (x s b : Bool)
        → is_some d.destination ≡ x
        → is_some d.backup ≡ b
        → Recovers sn hash old (recover_moved sn j x s b) d
    unfolding recover_moved
    moved-On false true true ex eb = activate_verified-On sn hash old j own (gone-Aside ex eb)
    moved-On true false true ex eb = verify_active-On sn hash old j own on
    moved-On false false true ex eb = put_back-On sn hash old j (gone-Aside ex eb)
    moved-On true true true ex eb = raise-Proves _ on
    moved-On x s false ex eb = raise-Proves _ on

    activated-On :
        (x s b : Bool)
        → is_some d.destination ≡ x
        → is_some d.backup ≡ b
        → Recovers sn hash old (recover_activated sn j x s b) d
    unfolding recover_activated
    activated-On false s true ex eb = put_back-On sn hash old j (gone-Aside ex eb)
    activated-On false s false ex eb = raise-Proves _ on
    activated-On true true b ex eb = raise-Proves _ on
    activated-On true false b ex eb = verify_active-On sn hash old j own on

    phase-On :
        (p : DeploymentPhase) (x s b : Bool)
        → is_some d.destination ≡ x
        → is_some d.backup ≡ b
        → Recovers sn hash old (recover_phase sn p j x s b) d
    unfolding recover_phase
    phase-On intent x s b ex eb = intent-On s b eb
    phase-On prepared x s b ex eb =
        if-Proves j.replaced_existing (λ t. replacing-On x s b ex eb) (λ f. absurd (cc (own.1)))
    phase-On old_moved x s b ex eb = moved-On x s b ex eb
    phase-On activated x s b ex eb = activated-On x s b ex eb

  read-On :
      (latest : DeploymentError ⊎ DeploymentJournal)
      → OwnLatest hash latest
      → {d : Disk Tree} → On hash (Kept sn hash old) d
      → Recovers sn hash old (recover_read sn latest) d
  unfolding recover_read
  read-On (inl e) own on = raise-Proves e on
  read-On (inr j) own on =
      then-Proves (On hash (Kept sn hash old)) (require-Proves _ on on) (λ d on.
        then-Proves (On hash (Kept sn hash old)) (root-Proves on on) (λ d on.
          look-Proves _ _
            (look-Proves _ _ (look-Proves _ _ (phase-On j own on j.phase _ _ _ refl refl)))))

  recover-On :
      {d : Disk Tree} → On hash (Kept sn hash old) d → Recovers sn hash old (recover_one sn) d
  unfolding recover_one
  recover-On {d} on =
      look-Proves _ _ (read-On (latest_entry d.journal) (latest-OwnLatest hash d.journal on.own) on)

  -- Recovery of a transaction that replaced a target keeps, whatever operation of the disk fails or
  -- is the last before the process dies, that the old target is in place, or is the backup, or a tree
  -- that verifies is in place. A recovery that reports a commit leaves a verified tree in place, and
  -- one that reports a rollback removes the journal and leaves the old target or a verified tree in
  -- place; neither leaves a backup.
  pub recovery_keeps_target :
      (fates : List (Fate Tree)) (d : Disk Tree)
      → On hash (Kept sn hash old) d
      → Ends (Recovered sn hash old) (On hash (Kept sn hash old)) (recover_one sn fates d)
  recovery_keeps_target fates d on = (recover-On on).ends fates

module _ {Tree : Type 0} (sn : Snapshots Tree) (hash : String) (old : Tree) where
  recorded-On :
      (replaced : Bool) (j : DeploymentJournal)
      → replaced ≡ true
      → j.snapshot_hash ≡ hash
      → j.replaced_existing ≡ true
      → {d : Disk Tree} → On hash (Untouched old) d
      → Proves
          (deploy_recorded sn replaced j)
          (λ r. On hash (Sealed sn hash))
          (On hash (Kept sn hash old))
          d
  unfolding deploy_recorded
  recorded-On replaced j replacing same marked on =
      then-Proves (On hash (Untouched old))
        (persist-On (Untouched old) (λ a b h. inl h) on j (same, marked))
        (λ d on.
          then-Proves (On hash (Untouched old)) (staged-On sn hash old j (same, marked) on) (λ d on.
            then-Proves (On hash (Aside old))
              (when-Proves replaced
                (λ t. set_old_aside-On sn hash old (in_phase prepared j) (same, marked) on)
                (λ f. absurd (cc)))
              (λ d on. then-Proves (On hash (Aside old)) (activate-On sn hash old on) (λ d on.
                then-Proves (On hash (Aside old)) (sync-On (Aside old) (λ a b h. inr (inl h)) on)
                  (λ d on. look-Proves _ _ (
                    if-Proves _
                      (λ t.
                        seal-On sn hash old j (same, marked)
                          (record { own = on.own; held = rw (← same) t }))
                      (λ f. refuse_active-On sn hash old replaced j replacing on)))))))

module _ {Tree : Type 0} (sn : Snapshots Tree) (old : Tree) (id : String)
    (request : DeploymentRequest) where
  abbrev Own : (Option Tree → Option Tree → Type 0) → Disk Tree → Type 0
  Own = On request.snapshot_hash

  deploy-On :
      {d : Disk Tree}
      → Own (Untouched old) d
      → Proves
          (deploy sn id request)
          (λ r. Own (Sealed sn request.snapshot_hash))
          (Own (Kept sn request.snapshot_hash old))
          d
  unfolding deploy
  deploy-On on =
      let kept = Untouched-Kept sn request.snapshot_hash old in
      then-Proves (Own (Untouched old)) (require-Proves _ on (kept _ on)) (λ d on.
        then-Proves (Own (Untouched old)) (root-Proves on (kept _ on)) (λ d on. look-Proves _ _ (
          recorded-On sn request.snapshot_hash old _ _ (ap is_some on.held.0) refl
            (ap is_some on.held.0) on)))

  -- A deployment over an existing target, with a fresh journal and no backup, leaves a verified tree
  -- in place and no backup if it returns. Where it fails, and wherever the process dies in it, the old
  -- target is in place, or is the backup, or a tree that verifies is in place.
  pub deploy_keeps_target :
      (fates : List (Fate Tree)) (d : Disk Tree)
      → d.destination ≡ some old
      → d.backup ≡ none
      → d.journal ≡ none
      → Ends
          (λ r. Own (Sealed sn request.snapshot_hash))
          (Own (Kept sn request.snapshot_hash old))
          (deploy sn id request fates d)
  deploy_keeps_target fates d there free fresh =
      (deploy-On (record { own = rw fresh tt; held = (there, free) })).ends fates
