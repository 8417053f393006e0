-- ===== src/Tests/Deploy.antt =====
-- A transaction over an existing target, with texts for trees.
use skill_hive.Prelude.{
  String, ◌≡◌, ◌≢◌, ◌<>◌, refl, true, none, some, List, [], ◌∷◌, ◌⊎◌, inr, ◌==◌, false, codes,
}
use skill_hive.Deploy.{
  validate_directory_name, is_directory_name, written, DeploymentRequest, DeploymentJournal, Disk,
  Remains, CutLine, Fate, works, stops, Snapshots, returned, deploy, recover_one,
  acknowledge_catalog_commit, is_passed_over, prepared, committed, rolled_back, give_up_staging,
  remove_staging, put_back, restore_backup, move_back, forget, remove_journal, one_component, up_to,
  failed, catalog_ack_rejected, recover_read, recover_phase, recover_replacing,
  activate_verified_staging, go_forward, sealed, seal, deploy_recorded, staged, stage, caught,
  after_staging, materialize_into, set_old_aside, activate, remove_backup, acknowledge_read,
  validate_transaction_id, validate_journal_paths, validate_request, require, ensure_directory_root,
  persist_journal, move_old, sync_directory, when, refuse_if, write, look, finish, raise, die,
  next_step, read_latest_journal, ◌>>=◌, ◌>>◌, verified_entry, journal_result, first_record,
  in_phase,
}
use skill_hive.Deploy.Apart.{entries_are_apart}
use skill_hive.Deploy.Rules.{Ends}
use skill_hive.Deploy.Steps.{On, Kept}
use skill_hive.Deploy.Recovered.{Recovered}
use skill_hive.Deploy.Safety.{recovery_keeps_target, deploy_keeps_target}
use skill_hive.Deploy.Life.{deployed, restarted, target_survives}
use skill_hive.Deploy.Acknowledged.{Acknowledged, Unchanged, acknowledge_effect}

abbrev shelf : Snapshots String
shelf = record {
  materialize = λ hash. some hash;
  verifies = λ hash tree. tree == hash;
  touched = λ tree. tree;
}

abbrev request : DeploymentRequest
request = record {
  skill_id = "skill-1";
  agent_profile_id = "claude";
  snapshot_hash = "new";
  skill_root = "/skills";
  directory_name = "notes";
}

abbrev before : Disk String
before = record { destination = some "old"; staging = none; backup = none; journal = none }

abbrev nothing : Remains String
nothing = record { tree = none; line = none }

-- The process dies when the record behind the move of the old target is cut short.
abbrev cut_record : Remains String
cut_record = record { tree = none; line = some CutLine.cut }

abbrev to_cut : List (Fate String)
to_cut = works ∷ works ∷ works ∷ works ∷ works ∷ works ∷ works ∷ works ∷ stops cut_record ∷ []

abbrev cut_journal : DeploymentJournal
cut_journal = in_phase prepared (first_record "t1" request true)

abbrev cut_disk : Disk String
cut_disk = (deploy shelf "t1" request to_cut before).2

cut_disk_backup : cut_disk.backup ≡ some "old"
unfolding deploy deploy_recorded staged stage caught after_staging materialize_into set_old_aside
    validate_request require ensure_directory_root persist_journal move_old sync_directory when
    refuse_if write look finish raise die next_step ◌>>=◌ ◌>>◌
cut_disk_backup = refl

abbrev after_restart : Disk String
after_restart = (recover_one shelf [] cut_disk).2

target_survives_example :
    (after_restart.destination ≡ some "old") × (after_restart.backup ≡ none)
    ⊎ ((after_restart.backup ≡ some "old")
        ⊎ (verified_entry shelf "new" after_restart.destination ≡ true))
target_survives_example =
    target_survives shelf "t1" request "old" before after_restart refl refl refl
      (restarted [] (deployed to_cut refl) refl)

-- The transaction that died has set the old target aside.
cut_disk-Kept : On "new" (Kept shelf "new" "old") cut_disk
unfolding deploy deploy_recorded staged stage caught after_staging materialize_into set_old_aside
    activate is_passed_over validate_transaction_id validate_journal_paths validate_request require
    ensure_directory_root persist_journal move_old sync_directory when refuse_if write look finish
    raise die next_step ◌>>=◌ ◌>>◌
cut_disk-Kept = deploy_keeps_target shelf "old" "t1" request to_cut before refl refl refl

recovery_keeps_target_example :
    Ends
      (Recovered shelf "new" "old")
      (On "new" (Kept shelf "new" "old"))
      (recover_one shelf [] cut_disk)
recovery_keeps_target_example = recovery_keeps_target shelf "new" "old" [] cut_disk cut_disk-Kept

-- The staged tree of that transaction is damaged before the restart: the recovery rolls back.
abbrev damaged_disk : Disk String
damaged_disk = record cut_disk { staging = some "damaged" }

damaged_is_rolled_back :
    ((recover_one shelf [] damaged_disk).0 ≡ returned rolled_back)
    × ((recover_one shelf [] damaged_disk).2.destination ≡ some "old")
unfolding recover_one recover_read recover_phase recover_replacing activate_verified_staging
    go_forward sealed seal deploy deploy_recorded staged stage caught after_staging materialize_into
    set_old_aside activate remove_backup is_passed_over validate_transaction_id
    validate_journal_paths validate_request require ensure_directory_root persist_journal move_old
    sync_directory when refuse_if write look finish raise die next_step read_latest_journal ◌>>=◌
    ◌>>◌ give_up_staging remove_staging put_back restore_backup move_back forget remove_journal
damaged_is_rolled_back = (refl, refl)

-- A name with a path component that is passed over is accepted, and one with two names is not.
dotted_name : is_directory_name (codes "notes/./") ≡ true
unfolding is_directory_name one_component is_passed_over
dotted_name = refl

two_names : is_directory_name (codes "notes/more") ≡ false
unfolding is_directory_name one_component is_passed_over
two_names = refl

abbrev done_disk : Disk String
done_disk = (deploy shelf "t1" request [] before).2

acknowledge_effect_example :
    Ends
      (Acknowledged shelf "t1" done_disk)
      (Unchanged shelf "t1" done_disk)
      (acknowledge_catalog_commit shelf "t1" [] done_disk)
acknowledge_effect_example = acknowledge_effect shelf "t1" done_disk []

-- The record that the target is active was appended behind the record that was cut short, and cannot
-- be read: the recovery reports a commit, and the acknowledgement of the commit is refused.
cut_record_refuses_commit :
    ((recover_one shelf [] cut_disk).0 ≡ returned (committed (journal_result cut_journal)))
    × ((acknowledge_catalog_commit shelf "t1" [] after_restart).0
        ≡ failed (catalog_ack_rejected "t1"))
unfolding recover_one recover_read recover_phase recover_replacing activate_verified_staging
    go_forward sealed seal deploy deploy_recorded staged stage caught after_staging materialize_into
    set_old_aside activate remove_backup is_passed_over acknowledge_catalog_commit acknowledge_read
    validate_transaction_id validate_journal_paths validate_request require ensure_directory_root
    persist_journal move_old sync_directory when refuse_if write look finish raise die next_step
    read_latest_journal ◌>>=◌ ◌>>◌
cut_record_refuses_commit = (refl, refl)

request_valid : validate_request request ≡ inr tt
unfolding validate_request validate_directory_name is_directory_name
request_valid = refl

entries_are_apart_example :
    ((first_record "t1" request true).destination ≢ (first_record "t2" request true).staging)
    × ((first_record "t1" request true).destination ≢ (first_record "t2" request true).backup)
    × ((first_record "t1" request true).staging ≢ (first_record "t2" request true).backup)
    × ((rest : String) → up_to 47 (codes "notes") ≢ codes (".skillhive-" <> rest))
entries_are_apart_example = entries_are_apart request request "t1" "t2" true true request_valid refl

-- A rollback that is cut short between the return of the backup and the removal of the journal: the
-- old target is in place, and every later recovery fails.
abbrev rolled_disk : Disk String
rolled_disk = record {
  destination = some "old";
  staging = none;
  backup = none;
  journal = some (record { lines = written cut_journal ∷ []; ending = none });
}

rolled_back_stays : (recover_one shelf [] rolled_disk).2 ≡ rolled_disk
unfolding recover_one recover_read recover_phase recover_replacing is_passed_over
    validate_journal_paths require ensure_directory_root write look raise finish next_step
    read_latest_journal ◌>>=◌ ◌>>◌
rolled_back_stays = refl
