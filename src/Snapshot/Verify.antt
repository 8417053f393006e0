-- ===== src/Snapshot/Verify.antt =====
-- `verify_materialized_snapshot` of frontend/src-tauri/src/snapshot_verifier.rs. A tree is the list of its
-- regular files in the order of their portable paths, which is what the walk and the sort of the code
-- make of a directory. The digest of bytes is an argument. The errors of the walk (input and output,
-- symbolic links, names that are not UTF-8, files that change) come before the comparison and have no
-- constructor here.
use skill_hive.Prelude.{
  ℕ, String, Bool, true, false, Option, none, some, List, [], ◌∷◌, ◌⊎◌, inl, inr, nat_eq, length,
  ◌==◌,
}
use skill_hive.Deploy.{Snapshots}
use skill_hive.Snapshot.Manifest.{
  SkillSnapshotFile, SkillSnapshotManifest, SnapshotError, checked_add,
}

pub record TreeFile : Type 0 where
  pub path : String
  pub bytes : List ℕ

abbrev pub Tree : Type 0
Tree = List TreeFile

pub data SnapshotVerificationError : Type 0 where
  file_set_mismatch : (expected actual : ℕ) → SnapshotVerificationError
  path_mismatch : (expected actual : String) → SnapshotVerificationError
  size_mismatch : (path : String) (expected actual : ℕ) → SnapshotVerificationError
  hash_mismatch : (path expected actual : String) → SnapshotVerificationError
  size_overflow : SnapshotVerificationError

pub record SkillSnapshotRef : Type 0 where
  pub manifest_hash : String
  pub file_count : ℕ
  pub total_bytes : ℕ

abbrev pub Verified : Type 0 → Type 0
Verified A = SnapshotVerificationError ⊎ A

infixl 5 ◌>>=◌
abbrev pub ◌>>=◌ : {A B : Type 0} → Verified A → (A → Verified B) → Verified B
inl e >>= rest = inl e
inr a >>= rest = rest a

abbrev pub expect : Bool → SnapshotVerificationError → Verified (Unit {0})
expect true e = inr tt
expect false e = inl e

abbrev pub no_overflow : SnapshotError ⊎ ℕ → Verified ℕ
no_overflow (inl e) = inl size_overflow
no_overflow (inr total) = inr total

module _ (digest : List ℕ → String) where
  -- One file of the manifest, and the file of the tree in its place.
  unfoldable pub verify_file : SkillSnapshotFile → TreeFile → ℕ → Verified ℕ
  verify_file expected actual total = do
    named ← expect (expected.path == actual.path) (path_mismatch expected.path actual.path)
    sized ←
        expect (nat_eq (length actual.bytes) expected.size_bytes)
          (size_mismatch expected.path expected.size_bytes (length actual.bytes))
    hashed ←
        expect (digest actual.bytes == expected.blob_hash)
          (hash_mismatch expected.path expected.blob_hash (digest actual.bytes))
    no_overflow (checked_add total expected.size_bytes)

  unfoldable pub verify_files : List SkillSnapshotFile → Tree → ℕ → Verified ℕ
  verify_files [] tree total = inr total
  verify_files (expected ∷ files) [] total = inr total
  verify_files (expected ∷ files) (actual ∷ tree) total =
      verify_file expected actual total >>= verify_files files tree

  unfoldable pub verify_materialized_snapshot :
      String → SkillSnapshotManifest → Tree → Verified SkillSnapshotRef
  verify_materialized_snapshot manifest_hash manifest tree = do
    counted ←
        expect (nat_eq (length tree) (length manifest.files))
          (file_set_mismatch (length manifest.files) (length tree))
    total ← verify_files manifest.files tree 0
    inr (record {
      manifest_hash = manifest_hash;
      file_count = length manifest.files;
      total_bytes = total;
    })

  abbrev pub is_verified : Verified SkillSnapshotRef → Bool
  is_verified (inl e) = false
  is_verified (inr r) = true

  abbrev pub verifies_as : String → Tree → Option SkillSnapshotManifest → Bool
  verifies_as hash tree none = false
  verifies_as hash tree (some manifest) =
      is_verified (verify_materialized_snapshot hash manifest tree)

  -- What the deployment engine takes of snapshots: the manifests that are read and accepted, and the
  -- materialization of trees.
  abbrev pub snapshots :
      (String → Option SkillSnapshotManifest)
      → (String → Option Tree)
      → (Tree → Tree)
      → Snapshots Tree
  snapshots manifest_of materialize touched = record {
    materialize = materialize;
    verifies = λ hash tree. verifies_as hash tree (manifest_of hash);
    touched = touched;
  }
