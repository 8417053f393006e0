-- ===== src/Deploy/Report.antt =====
-- `recover_incomplete` of frontend/src-tauri/src/deployment.rs: one recovery for each journal, in the
-- order of the file names. The entries of the transactions are apart, so each has a disk of its own.
use skill_hive.Prelude.{ℕ, ◌+◌, ◌≡◌, List, [], ◌∷◌, ◌++◌, length, length-append, arith, subst}
use skill_hive.Deploy.Journal.{DeploymentError, DeploymentResult}
use skill_hive.Deploy.Machine.{Disk, Fate, Outcome, returned, failed, stopped, Snapshots}
use skill_hive.Deploy.Recovery.{RecoveryOutcome, committed, rolled_back, recover_one}

pub record RecoveryReport : Type 0 where
  pub recovered : ℕ
  pub rolled_back : ℕ
  pub catalog_commits : List DeploymentResult
  pub failed : List DeploymentError

unfoldable pub with_outcome : RecoveryOutcome → RecoveryReport → RecoveryReport
with_outcome (committed result) r = record r {
  recovered = r.recovered + 1;
  catalog_commits = r.catalog_commits ++ result ∷ [];
}
with_outcome rolled_back r = record r { rolled_back = r.rolled_back + 1 }

abbrev with_failure : DeploymentError → RecoveryReport → RecoveryReport
with_failure e r = record r { failed = r.failed ++ e ∷ [] }

-- The journals behind the one at hand.
abbrev pub Rest : Type 0 → Type 0
Rest Tree = List (Fate Tree) → RecoveryReport → Outcome RecoveryReport × List (Disk Tree)

module _ {Tree : Type 0} where
  abbrev kept :
      Disk Tree
      → Outcome RecoveryReport × List (Disk Tree)
      → Outcome RecoveryReport × List (Disk Tree)
  kept d (result, disks) = (result, d ∷ disks)

  -- An error is noted, and the next journal follows; a process that dies leaves the others alone.
  unfoldable pub note :
      List (Disk Tree)
      → Rest Tree
      → RecoveryReport
      → Outcome RecoveryOutcome × List (Fate Tree) × Disk Tree
      → Outcome RecoveryReport × List (Disk Tree)
  note disks rest report (returned outcome, fates, d) =
      kept d (rest fates (with_outcome outcome report))
  note disks rest report (failed e, fates, d) = kept d (rest fates (with_failure e report))
  note disks rest report (stopped, fates, d) = (stopped, d ∷ disks)

  unfoldable pub recover_each : Snapshots Tree → List (Disk Tree) → Rest Tree
  recover_each sn [] fates report = (returned report, [])
  recover_each sn (d ∷ disks) fates report =
      note disks (recover_each sn disks) report (recover_one sn fates d)

  unfoldable pub recover_incomplete :
      Snapshots Tree
      → List (Disk Tree)
      → List (Fate Tree)
      → Outcome RecoveryReport × List (Disk Tree)
  unfolding recover_each
  recover_incomplete sn disks fates =
      recover_each sn disks fates
        (record { recovered = 0; rolled_back = 0; catalog_commits = []; failed = [] })

abbrev pub counted : RecoveryReport → ℕ
counted r = r.recovered + r.rolled_back + length r.failed

counted-with_outcome :
    (outcome : RecoveryOutcome) (r : RecoveryReport)
    → counted (with_outcome outcome r) ≡ counted r + 1
unfolding with_outcome
counted-with_outcome (committed result) r = omega arith
counted-with_outcome rolled_back r = omega arith

module _ {Tree : Type 0} where
  abbrev Counts : ℕ → Outcome RecoveryReport × List (Disk Tree) → Type 0
  Counts n (returned r, disks) = counted r ≡ n
  Counts n (failed e, disks) = Unit {0}
  Counts n (stopped, disks) = Unit {0}

  kept-Counts :
      (n : ℕ) (d : Disk Tree) (r : Outcome RecoveryReport × List (Disk Tree))
      → Counts n r
      → Counts n (kept d r)
  kept-Counts n d (returned r, disks) h = h
  kept-Counts n d (failed e, disks) h = tt
  kept-Counts n d (stopped, disks) h = tt

  note-Counts :
      (n : ℕ) (disks : List (Disk Tree)) (rest : Rest Tree) (report : RecoveryReport)
      (r : Outcome RecoveryOutcome × List (Fate Tree) × Disk Tree)
      → ((fates : List (Fate Tree)) (later : RecoveryReport)
          → counted later ≡ counted report + 1
          → Counts n (rest fates later))
      → Counts n (note disks rest report r)
  unfolding note
  note-Counts n disks rest report (returned outcome, fates, d) h =
      kept-Counts n d (rest fates (with_outcome outcome report))
        (h fates _ (counted-with_outcome outcome report))
  note-Counts n disks rest report (failed e, fates, d) h =
      kept-Counts n d (rest fates (with_failure e report))
        (h fates _ (omega (arith, length-append report.failed (e ∷ []))))
  note-Counts n disks rest report (stopped, fates, d) h = tt

  each-Counts :
      (sn : Snapshots Tree) (disks : List (Disk Tree)) (fates : List (Fate Tree))
      (report : RecoveryReport) (n : ℕ)
      → counted report + length disks ≡ n
      → Counts n (recover_each sn disks fates report)
  unfolding recover_each
  each-Counts sn [] fates report n h = omega arith
  each-Counts sn (d ∷ disks) fates report n h =
      note-Counts n disks (recover_each sn disks) report (recover_one sn fates d)
        (λ fates later e. each-Counts sn disks fates later n (omega arith))

  -- A recovery that reaches its end reports each journal once, as recovered, rolled back or failed.
  pub report_is_complete :
      (sn : Snapshots Tree) (disks after : List (Disk Tree)) (fates : List (Fate Tree))
      (report : RecoveryReport)
      → recover_incomplete sn disks fates ≡ (returned report, after)
      → report.recovered + report.rolled_back + length report.failed ≡ length disks
  unfolding recover_incomplete
  report_is_complete sn disks after fates report e =
      subst (Counts (length disks)) e (each-Counts sn disks fates _ (length disks) (omega arith))
