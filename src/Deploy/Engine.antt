-- ===== src/Deploy/Engine.antt =====
-- `deploy` and `acknowledge_catalog_commit` of frontend/src-tauri/src/deployment.rs, from the first
-- record of the journal on.
use skill_hive.Prelude.{
  String, ◌<>◌, List, Bool, true, false, Option, none, some, ◌⊎◌, inl, inr, is_some, not, ◌||◌,
  ◌&&◌, if◌then◌else◌, ◌==◌,
}
use skill_hive.Deploy.Journal.{
  DeploymentPhase, intent, prepared, old_moved, activated, DeploymentRequest, DeploymentResult,
  DeploymentJournal, DeploymentError, snapshot, verification, catalog_ack_rejected, journal_result,
  io, JournalFile, read_latest_journal,
}
use skill_hive.Deploy.Names.{
  Checked, validate_request, validate_transaction_id, validate_journal_paths,
}
use skill_hive.Deploy.Machine.{
  Disk, Fate, Snapshots, Outcome, returned, failed, stopped, Run, ◌>>=◌, ◌>>◌, finish, raise, die,
  when, refuse_if, look, write, ignoring, sync_directory, remove_destination, remove_staging,
  remove_backup, move_old, activate, persist_journal, remove_journal, rollback_active_to_backup,
  verified_entry,
}

-- `skill_root.join(name)`
abbrev pub joined_path : String → String → String
joined_path root name = root <> "/" <> name

abbrev pub first_record : String → DeploymentRequest → Bool → DeploymentJournal
first_record transaction_id request replaced = record {
  transaction_id = transaction_id;
  skill_id = request.skill_id;
  agent_profile_id = request.agent_profile_id;
  snapshot_hash = request.snapshot_hash;
  skill_root = request.skill_root;
  destination = joined_path request.skill_root request.directory_name;
  staging = joined_path request.skill_root (".skillhive-stage-" <> transaction_id);
  backup = joined_path request.skill_root (".skillhive-backup-" <> transaction_id);
  replaced_existing = replaced;
  phase = intent;
}

abbrev pub in_phase : DeploymentPhase → DeploymentJournal → DeploymentJournal
in_phase p j = record j { phase = p }

abbrev pub is_activated : DeploymentPhase → Bool
is_activated activated = true
is_activated p = false

abbrev pub latest_entry : Option JournalFile → DeploymentError ⊎ DeploymentJournal
latest_entry none = inl io
latest_entry (some file) = read_latest_journal file

module _ {Tree : Type 0} where
  -- `ensure_directory_root`, which may create the root.
  unfoldable pub ensure_directory_root : Run Tree (Unit {0})
  ensure_directory_root = write (λ d. d) (λ r d. d)

  -- `check?;`
  unfoldable pub require : Checked → Run Tree (Unit {0})
  require (inl e) = raise e
  require (inr u) = finish tt

module _ {Tree : Type 0} (sn : Snapshots Tree) where
  -- `materialize_snapshot`: the whole tree, an error, or a part of the tree and an error.
  unfoldable pub materialize_into : Option Tree → Run Tree (Unit {0})
  materialize_into none = raise snapshot
  materialize_into (some tree) =
      write (λ d. record d { staging = some tree }) (λ r d. record d { staging = r.tree })

  -- The steps up to the phase `Prepared`.
  unfoldable pub stage : DeploymentJournal → Run Tree (Unit {0})
  stage j = do
    occupied ← look (λ d. is_some d.staging)
    refuse_if occupied snapshot
    materialize_into (sn.materialize j.snapshot_hash)
    verified ← look (λ d. verified_entry sn j.snapshot_hash d.staging)
    refuse_if (not verified) verification
    sync_directory
    persist_journal (in_phase prepared j)

  -- `if let Err(error) = staging_result`: the staged tree and the journal are removed if possible.
  unfoldable pub discard_staging : Run Tree (Unit {0})
  discard_staging = do
    staging_exists ← look (λ d. is_some d.staging)
    when staging_exists (ignoring remove_staging >> ignoring sync_directory)
    ignoring remove_journal

  unfoldable pub after_staging : Outcome (Unit {0}) → Run Tree (Unit {0})
  after_staging (returned u) = finish tt
  after_staging (failed e) = discard_staging >> raise e
  after_staging stopped = die

  unfoldable pub caught :
      Outcome (Unit {0}) × List (Fate Tree) × Disk Tree
      → Outcome (Unit {0}) × List (Fate Tree) × Disk Tree
  caught (result, fates, d) = after_staging result fates d

  unfoldable pub staged : DeploymentJournal → Run Tree (Unit {0})
  staged j fates d = caught (stage j fates d)

  -- The candidate that does not verify after its activation is removed, or replaced by the backup.
  unfoldable pub reject_active : Bool → DeploymentJournal → Run Tree (Unit {0})
  reject_active replaced j = do
    backup_exists ← look (λ d. is_some d.backup)
    destination_exists ← look (λ d. is_some d.destination)
    (if replaced && backup_exists
        then rollback_active_to_backup j
        else when destination_exists (remove_destination >> sync_directory))

  -- The end of a transaction: the record that the target is active, then the backup goes.
  unfoldable pub seal : DeploymentJournal → Run Tree DeploymentResult
  seal j = do
    persist_journal (in_phase activated j)
    backup_exists ← look (λ d. is_some d.backup)
    when backup_exists (remove_backup >> sync_directory)
    finish (journal_result j)

  abbrev pub refuse_active : Bool → DeploymentJournal → Run Tree DeploymentResult
  refuse_active replaced j =
      reject_active replaced j >> (ignoring remove_journal >> raise verification)

  -- The rename of the old target, with its record.
  unfoldable pub set_old_aside : DeploymentJournal → Run Tree (Unit {0})
  set_old_aside j = do move_old; sync_directory; persist_journal (in_phase old_moved j)

  -- `deploy` from the first record of the journal on.
  unfoldable pub deploy_recorded : Bool → DeploymentJournal → Run Tree DeploymentResult
  deploy_recorded replaced j = do
    persist_journal j
    staged j
    when replaced (set_old_aside (in_phase prepared j))
    activate sn
    sync_directory
    verified ← look (λ d. verified_entry sn j.snapshot_hash d.destination)
    if verified then seal j else refuse_active replaced j

  unfoldable pub deploy : String → DeploymentRequest → Run Tree DeploymentResult
  deploy transaction_id request = do
    require (validate_request request)
    ensure_directory_root
    replaced ← look (λ d. is_some d.destination)
    deploy_recorded replaced (first_record transaction_id request replaced)

  -- The body of `acknowledge_catalog_commit` once the journal is read.
  unfoldable pub acknowledge_read :
      String → DeploymentError ⊎ DeploymentJournal → Run Tree (Unit {0})
  acknowledge_read transaction_id (inl e) = raise e
  acknowledge_read transaction_id (inr j) = do
    require (validate_journal_paths j)
    refuse_if (not (j.transaction_id == transaction_id) || not (is_activated j.phase))
        (catalog_ack_rejected transaction_id)
    leftover ← look (λ d. not (is_some d.destination) || is_some d.staging || is_some d.backup)
    refuse_if leftover (catalog_ack_rejected transaction_id)
    verified ← look (λ d. verified_entry sn j.snapshot_hash d.destination)
    refuse_if (not verified) verification
    remove_journal

  unfoldable pub acknowledge_catalog_commit : String → Run Tree (Unit {0})
  acknowledge_catalog_commit transaction_id = do
    require (validate_transaction_id transaction_id)
    latest ← look (λ d. latest_entry d.journal)
    acknowledge_read transaction_id latest
