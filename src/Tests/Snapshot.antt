-- ===== src/Tests/Snapshot.antt =====
-- A manifest with two files.
use skill_hive.Prelude.{
  ℕ, ◌≤◌, ◌≡◌, String, refl, inr, inl, [], ◌∷◌, Memᴰ, length, List, codes, ◌||◌,
}
use skill_hive.Snapshot.{
  SkillSnapshotFile, SkillSnapshotManifest, default_policy, invalid_manifest_path,
  validate_manifest, validate_files, validate_file, is_portable_path, text_lt, is_canonical_sha256,
  enforce_file_size, add_and_enforce_total,
}
use skill_hive.Deploy.{same_codes}
use skill_hive.Snapshot.{
  snapshot_closure, sorted, placed, deduped, deduped_after, has_hash, file_has_hash, IsIncreasing,
}
use skill_hive.Snapshot.Needed.{closure_is_exact}
use skill_hive.Snapshot.Accepted.{accepted_manifest, IsSorted, IsFine, HasEntry, total_size}

abbrev digest : String
digest = "sha256:00112233445566778899aabbccddeeff00112233445566778899aabbccddeeff"

abbrev entry : SkillSnapshotFile
entry = record { path = "SKILL.md"; blob_hash = digest; size_bytes = 120 }

abbrev helper : SkillSnapshotFile
helper = record { path = "scripts/run.sh"; blob_hash = digest; size_bytes = 80 }

abbrev two_files : SkillSnapshotManifest
two_files = record { format_version = 1; files = entry ∷ helper ∷ [] }

two_files_run : validate_manifest two_files default_policy ≡ inr tt
unfolding validate_manifest validate_files validate_file is_portable_path text_lt
    is_canonical_sha256 enforce_file_size add_and_enforce_total
two_files_run = refl

accepted_manifest_example :
    (length two_files.files ≤ 10000)
    × IsSorted two_files.files
    × ((file : SkillSnapshotFile) → Memᴰ file two_files.files → IsFine default_policy file)
    × HasEntry two_files.files
    × (total_size two_files.files ≤ default_policy.max_total_bytes)
accepted_manifest_example = accepted_manifest two_files default_policy two_files_run

closure_is_exact_example :
    ((k : List ℕ)
      → has_hash k (snapshot_closure "sha256:aa" 300 two_files)
        ≡ (file_has_hash k two_files.files || same_codes k (codes "sha256:aa")))
    × IsIncreasing (snapshot_closure "sha256:aa" 300 two_files)
closure_is_exact_example = closure_is_exact "sha256:aa" 300 two_files

-- The two files have the same bytes: the closure has their blob once, and the manifest.
two_blobs : length (snapshot_closure "sha256:aa" 300 two_files) ≡ 2
unfolding snapshot_closure sorted placed deduped deduped_after text_lt same_codes
two_blobs = refl

-- A path that climbs out of the snapshot.
climbing : SkillSnapshotManifest
climbing = record {
  format_version = 1;
  files = record { path = "../SKILL.md"; blob_hash = digest; size_bytes = 1 } ∷ [];
}

climbing_is_refused : validate_manifest climbing default_policy ≡ inl invalid_manifest_path
unfolding climbing validate_manifest validate_files validate_file is_portable_path text_lt
    is_canonical_sha256 enforce_file_size add_and_enforce_total
climbing_is_refused = refl
