-- ===== src/Tests/Exact.antt =====
-- A deployment of a snapshot with one file over an older tree.
use skill_hive.Prelude.{
  ℕ, String, ◌≡◌, refl, Option, none, some, List, [], ◌∷◌, inl, length, nat_eq, ◌==◌, true,
  if◌then◌else◌,
}
use skill_hive.Deploy.{
  DeploymentRequest, Disk, returned, deploy, journal_result, first_record, deploy_recorded, sealed,
  seal, staged, stage, caught, after_staging, materialize_into, set_old_aside, activate,
  remove_backup, validate_transaction_id, validate_journal_paths, validate_request, require,
  ensure_directory_root, persist_journal, move_old, sync_directory, is_passed_over, when, refuse_if,
  write, look, finish, raise, die, next_step, ◌>>=◌, ◌>>◌,
}
use skill_hive.Snapshot.{SkillSnapshotManifest, checked_add}
use skill_hive.Snapshot.Verify.{
  Tree, file_set_mismatch, size_mismatch, verify_file, verify_files, verify_materialized_snapshot,
  snapshots,
}
use skill_hive.Snapshot.Exact.{HoldsExactly, deployed_is_exact}

-- A digest that tells texts of three bytes from the others.
abbrev digest : List ℕ → String
digest bytes = if nat_eq (length bytes) 3 then "three" else "other"

abbrev one_file : SkillSnapshotManifest
one_file = record {
  format_version = 1;
  files = record { path = "SKILL.md"; blob_hash = "three"; size_bytes = 3 } ∷ [];
}

abbrev manifest_of : String → Option SkillSnapshotManifest
manifest_of hash = if hash == "new" then some one_file else none

abbrev new_tree : Tree
new_tree = record { path = "SKILL.md"; bytes = 1 ∷ 2 ∷ 3 ∷ [] } ∷ []

abbrev old_tree : Tree
old_tree = record { path = "SKILL.md"; bytes = 9 ∷ [] } ∷ []

abbrev request : DeploymentRequest
request = record {
  skill_id = "skill-1";
  agent_profile_id = "claude";
  snapshot_hash = "new";
  skill_root = "/skills";
  directory_name = "notes";
}

abbrev before : Disk Tree
before = record { destination = some old_tree; staging = none; backup = none; journal = none }

abbrev done : Disk Tree
done =
    (deploy (snapshots digest manifest_of (λ hash. some new_tree) (λ tree. tree)) "t1" request []
      before).2

runs :
    deploy
      (snapshots digest manifest_of (λ hash. some new_tree) (λ tree. tree))
      "t1"
      request
      []
      before
    ≡ (returned (journal_result (first_record "t1" request true)), [], done)
unfolding deploy deploy_recorded sealed seal staged stage caught after_staging materialize_into
    set_old_aside activate remove_backup validate_transaction_id validate_journal_paths
    validate_request require ensure_directory_root persist_journal move_old sync_directory
    is_passed_over when refuse_if write look finish raise die next_step ◌>>=◌ ◌>>◌ verify_file
    verify_files verify_materialized_snapshot checked_add
runs = refl

deployed_is_exact_example :
    HoldsExactly digest manifest_of "new" done.destination × (done.backup ≡ none)
deployed_is_exact_example =
    deployed_is_exact digest manifest_of (λ hash. some new_tree) (λ tree. tree) "t1" request
      old_tree [] [] before done _ refl refl refl runs

-- The old tree is not the snapshot: its file has another size.
old_is_refused :
    verify_materialized_snapshot digest "new" one_file old_tree ≡ inl (size_mismatch "SKILL.md" 3 1)
unfolding verify_materialized_snapshot verify_files verify_file
old_is_refused = refl

-- A tree without files is refused before any file is read.
empty_is_refused :
    verify_materialized_snapshot digest "new" one_file [] ≡ inl (file_set_mismatch 1 0)
unfolding verify_materialized_snapshot
empty_is_refused = refl
