-- ===== src/Deploy/Recovery.antt =====
-- `recover_one` of frontend/src-tauri/src/deployment.rs: what is done about a transaction that was
-- interrupted, by the phase of its journal and the entries that are there.
use skill_hive.Prelude.{Bool, true, false, ◌⊎◌, inl, inr, is_some, not, if◌then◌else◌}
use skill_hive.Deploy.Journal.{
  DeploymentPhase, intent, prepared, old_moved, activated, DeploymentResult, DeploymentJournal,
  DeploymentError, verification, journal_result,
}
use skill_hive.Deploy.Machine.{
  Snapshots, Run, ◌>>=◌, ◌>>◌, finish, raise, when, refuse_if, look, sync_directory,
  remove_destination, remove_staging, activate, persist_journal, remove_journal, restore_backup,
  rollback_active_to_backup, verified_entry, unrecoverable,
}
use skill_hive.Deploy.Names.{validate_journal_paths}
use skill_hive.Deploy.Engine.{in_phase, seal, latest_entry, require, ensure_directory_root}

pub data RecoveryOutcome : Type 0 where
  committed : DeploymentResult → RecoveryOutcome
  rolled_back : RecoveryOutcome

module _ {Tree : Type 0} (sn : Snapshots Tree) where
  unfoldable pub sealed : DeploymentJournal → Run Tree RecoveryOutcome
  sealed j = seal sn j >>= λ result. finish (committed result)

  -- `self.remove_journal(journal_path)?; Ok(RolledBack)`
  unfoldable pub forget : Run Tree RecoveryOutcome
  forget = remove_journal >> finish rolled_back

  unfoldable pub drop_staging : Run Tree RecoveryOutcome
  drop_staging = remove_staging >> (sync_directory >> forget)

  unfoldable pub put_back : DeploymentJournal → Run Tree RecoveryOutcome
  put_back j = restore_backup j >> forget

  unfoldable pub give_up_staging : DeploymentJournal → Run Tree RecoveryOutcome
  give_up_staging j = do
    backup_exists ← look (λ d. is_some d.backup)
    staging_exists ← look (λ d. is_some d.staging)
    refuse_if (not backup_exists) verification
    when staging_exists remove_staging
    put_back j

  unfoldable pub go_forward : DeploymentJournal → Run Tree RecoveryOutcome
  go_forward j = do
    activate sn
    sync_directory
    verified ← look (λ d. verified_entry sn j.snapshot_hash d.destination)
    refuse_if (not verified) verification
    sealed j

  unfoldable pub activate_verified_staging : DeploymentJournal → Run Tree RecoveryOutcome
  activate_verified_staging j = do
    verified ← look (λ d. verified_entry sn j.snapshot_hash d.staging)
    if verified then go_forward j else give_up_staging j

  unfoldable pub verify_active_or_restore_backup : DeploymentJournal → Run Tree RecoveryOutcome
  verify_active_or_restore_backup j = do
    verified ← look (λ d. verified_entry sn j.snapshot_hash d.destination)
    staging_exists ← look (λ d. is_some d.staging)
    backup_exists ← look (λ d. is_some d.backup)
    (if verified
        then (when staging_exists remove_staging >> sealed j)
        else (refuse_if (not backup_exists) verification
            >> (rollback_active_to_backup j >> forget)))

  unfoldable pub verify_active_without_backup : DeploymentJournal → Run Tree RecoveryOutcome
  verify_active_without_backup j = do
    verified ← look (λ d. verified_entry sn j.snapshot_hash d.destination)
    destination_exists ← look (λ d. is_some d.destination)
    (if verified
        then (persist_journal (in_phase activated j) >> finish (committed (journal_result j)))
        else (when destination_exists (remove_destination >> sync_directory) >> forget))

  abbrev pub stuck : DeploymentJournal → Run Tree RecoveryOutcome
  stuck j = raise (unrecoverable j "no rule for the entries that exist")

  unfoldable pub recover_intent :
      DeploymentJournal → (staging backup : Bool) → Run Tree RecoveryOutcome
  recover_intent j staging true = raise (unrecoverable j "backup exists while phase is intent")
  recover_intent j true false = drop_staging
  recover_intent j false false = forget

  unfoldable pub recover_replacing :
      DeploymentJournal → (destination staging backup : Bool) → Run Tree RecoveryOutcome
  recover_replacing j true true false = drop_staging
  recover_replacing j false true true = activate_verified_staging j
  recover_replacing j true false true = verify_active_or_restore_backup j
  recover_replacing j false false true = put_back j
  recover_replacing j true true true = stuck j
  recover_replacing j true false false = stuck j
  recover_replacing j false true false = stuck j
  recover_replacing j false false false = stuck j

  unfoldable pub recover_installing :
      DeploymentJournal → (destination staging backup : Bool) → Run Tree RecoveryOutcome
  recover_installing j false true false = drop_staging
  recover_installing j true false false = verify_active_without_backup j
  recover_installing j true true backup = stuck j
  recover_installing j false staging true = stuck j
  recover_installing j true false true = stuck j
  recover_installing j false false false = stuck j

  unfoldable pub recover_moved :
      DeploymentJournal → (destination staging backup : Bool) → Run Tree RecoveryOutcome
  recover_moved j false true true = activate_verified_staging j
  recover_moved j true false true = verify_active_or_restore_backup j
  recover_moved j false false true = put_back j
  recover_moved j true true true = stuck j
  recover_moved j destination staging false = stuck j

  unfoldable pub recover_activated :
      DeploymentJournal → (destination staging backup : Bool) → Run Tree RecoveryOutcome
  recover_activated j false staging true = put_back j
  recover_activated j false staging false =
      raise (unrecoverable j "activated target is missing and no backup remains")
  recover_activated j true true backup =
      raise (unrecoverable j "staging still exists after activation")
  recover_activated j true false backup = verify_active_or_restore_backup j

  unfoldable pub recover_phase :
      DeploymentPhase
      → DeploymentJournal
      → (destination staging backup : Bool) → Run Tree RecoveryOutcome
  recover_phase intent j destination staging backup = recover_intent j staging backup
  recover_phase prepared j destination staging backup =
      if j.replaced_existing
      then recover_replacing j destination staging backup
      else recover_installing j destination staging backup
  recover_phase old_moved j destination staging backup = recover_moved j destination staging backup
  recover_phase activated j destination staging backup =
      recover_activated j destination staging backup

  unfoldable pub recover_read : DeploymentError ⊎ DeploymentJournal → Run Tree RecoveryOutcome
  recover_read (inl e) = raise e
  recover_read (inr j) = do
    require (validate_journal_paths j)
    ensure_directory_root
    destination_exists ← look (λ d. is_some d.destination)
    staging_exists ← look (λ d. is_some d.staging)
    backup_exists ← look (λ d. is_some d.backup)
    recover_phase j.phase j destination_exists staging_exists backup_exists

  unfoldable pub recover_one : Run Tree RecoveryOutcome
  recover_one = do latest ← look (λ d. latest_entry d.journal); recover_read latest
