-- ===== src/Deploy/Life.antt =====
-- A deployment that is cut short anywhere, and the recoveries that follow, each of them cut short
-- anywhere too.
use skill_hive.Prelude.{String, ◌≡◌, true, none, some, List, ◌⊎◌, inl, inr, subst}
use skill_hive.Deploy.Journal.{DeploymentRequest}
use skill_hive.Deploy.Machine.{
  Disk, Fate, Outcome, returned, failed, stopped, Snapshots, verified_entry,
}
use skill_hive.Deploy.Engine.{deploy}
use skill_hive.Deploy.Recovery.{RecoveryOutcome, committed, rolled_back, recover_one}
use skill_hive.Deploy.Rules.{Ends}
use skill_hive.Deploy.Steps.{On, Sealed, Kept}
use skill_hive.Deploy.Recovered.{Resolved, Recovered}
use skill_hive.Deploy.Safety.{recovery_keeps_target, deploy_keeps_target}

module _ {Tree : Type 0} (sn : Snapshots Tree) (id : String) (request : DeploymentRequest) where
  -- From the disk before the deployment to what is on it at some time.
  pub data Life (start : Disk Tree) : Disk Tree → Type 0 where
    deployed :
        {d : Disk Tree} (fates : List (Fate Tree))
        → (deploy sn id request fates start).2 ≡ d
        → Life start d
    restarted :
        {d e : Disk Tree} (fates : List (Fate Tree))
        → Life start d
        → (recover_one sn fates d).2 ≡ e
        → Life start e

  module _ (old : Tree) where
    abbrev pub Survives : Disk Tree → Type 0
    Survives = On request.snapshot_hash (Kept sn request.snapshot_hash old)

    Sealed-Survives :
        (d : Disk Tree) → On request.snapshot_hash (Sealed sn request.snapshot_hash) d → Survives d
    Sealed-Survives d on = record { own = on.own; held = inr (inr on.held.0) }

    Resolved-Survives :
        (d : Disk Tree)
        → On request.snapshot_hash (Resolved sn request.snapshot_hash old) d
        → Survives d
    Resolved-Survives d on = record { own = on.own; held = kept on.held }
      where
        kept :
            Resolved sn request.snapshot_hash old d.destination d.backup
            → Kept sn request.snapshot_hash old d.destination d.backup
        kept (inl h) = inl h
        kept (inr h) = inr (inr h.0)

    deployed-Survives :
        {A : Type 0} (r : Outcome A × List (Fate Tree) × Disk Tree)
        → Ends (λ a. On request.snapshot_hash (Sealed sn request.snapshot_hash)) Survives r
        → Survives r.2
    deployed-Survives (returned a, fates, d) h = Sealed-Survives d h
    deployed-Survives (failed e, fates, d) h = h
    deployed-Survives (stopped, fates, d) h = h

    Recovered-Survives :
        (r : Outcome RecoveryOutcome × List (Fate Tree) × Disk Tree)
        → Ends (Recovered sn request.snapshot_hash old) Survives r
        → Survives r.2
    Recovered-Survives (returned (committed result), fates, d) h = Sealed-Survives d h
    Recovered-Survives (returned rolled_back, fates, d) h = Resolved-Survives d h.0
    Recovered-Survives (failed e, fates, d) h = h
    Recovered-Survives (stopped, fates, d) h = h

    Life-Survives :
        {start d : Disk Tree}
        → start.destination ≡ some old
        → start.backup ≡ none
        → start.journal ≡ none
        → Life start d
        → Survives d
    Life-Survives {start} there free fresh (deployed fates e) = subst Survives e (
        deployed-Survives (deploy sn id request fates start)
          (deploy_keeps_target sn old id request fates start there free fresh))
    Life-Survives there free fresh (restarted {d} fates life e) = subst Survives e (
        Recovered-Survives (recover_one sn fates d) (
          recovery_keeps_target sn request.snapshot_hash old fates d
            (Life-Survives there free fresh life)))

    -- A deployment over an existing target, cut short or failing anywhere, and any number of
    -- recoveries after it, each cut short or failing anywhere: the old target is in place with no
    -- backup beside it, or it is the backup, or a tree that verifies is in place.
    pub target_survives :
        (start d : Disk Tree)
        → start.destination ≡ some old
        → start.backup ≡ none
        → start.journal ≡ none
        → Life start d
        → (d.destination ≡ some old) × (d.backup ≡ none)
          ⊎ ((d.backup ≡ some old) ⊎ (verified_entry sn request.snapshot_hash d.destination ≡ true))
    target_survives start d there free fresh life = (Life-Survives there free fresh life).held
