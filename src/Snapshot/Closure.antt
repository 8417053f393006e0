-- ===== src/Snapshot/Closure.antt =====
-- `snapshot_closure` of frontend/src-tauri/src/sync_transport.rs: the blobs that a snapshot needs.
use skill_hive.Prelude.{
  ℕ, String, ◌≡◌, Bool, true, false, ◌||◌, List, [], ◌∷◌, ◌++◌, map, codes, if◌then◌else◌,
}
use skill_hive.Deploy.{same_codes}
use skill_hive.Snapshot.Manifest.{SkillSnapshotFile, SkillSnapshotManifest, text_lt}

pub record BlobDescriptor : Type 0 where
  pub hash : String
  pub size_bytes : ℕ

abbrev pub key : BlobDescriptor → List ℕ
key blob = codes blob.hash

abbrev pub from_snapshot_file : SkillSnapshotFile → BlobDescriptor
from_snapshot_file file = record { hash = file.blob_hash; size_bytes = file.size_bytes }

-- `sort_by`, which is stable.
unfoldable pub placed : BlobDescriptor → List BlobDescriptor → List BlobDescriptor
placed blob [] = blob ∷ []
placed blob (other ∷ others) =
    let rest = placed blob others in
    if text_lt (key other) (key blob) then other ∷ rest else blob ∷ other ∷ others

unfoldable pub sorted : List BlobDescriptor → List BlobDescriptor
sorted [] = []
sorted (blob ∷ blobs) = placed blob (sorted blobs)

-- `dedup_by`: a blob goes if the one that was kept before it has the same hash.
unfoldable pub deduped_after : BlobDescriptor → List BlobDescriptor → List BlobDescriptor
deduped_after blob [] = []
deduped_after blob (other ∷ others) =
    let skipped = deduped_after blob others in
    let taken = deduped_after other others in
    if same_codes (key blob) (key other) then skipped else other ∷ taken

unfoldable pub deduped : List BlobDescriptor → List BlobDescriptor
deduped [] = []
deduped (blob ∷ blobs) = blob ∷ deduped_after blob blobs

-- The manifest is read from the blobs by its hash; `size` is the length of its bytes.
unfoldable pub snapshot_closure : String → ℕ → SkillSnapshotManifest → List BlobDescriptor
snapshot_closure manifest_hash size manifest = deduped (
    sorted (
      map from_snapshot_file manifest.files
      ++ record { hash = manifest_hash; size_bytes = size } ∷ []))

abbrev pub has_hash : List ℕ → List BlobDescriptor → Bool
has_hash k [] = false
has_hash k (blob ∷ blobs) = same_codes k (key blob) || has_hash k blobs

abbrev pub file_has_hash : List ℕ → List SkillSnapshotFile → Bool
file_has_hash k [] = false
file_has_hash k (file ∷ files) = same_codes k (codes file.blob_hash) || file_has_hash k files

-- Each hash is less than the next.
abbrev pub Increasing : BlobDescriptor → List BlobDescriptor → Type 0
Increasing blob [] = Unit {0}
Increasing blob (other ∷ others) = (text_lt (key blob) (key other) ≡ true) × Increasing other others

abbrev pub IsIncreasing : List BlobDescriptor → Type 0
IsIncreasing [] = Unit {0}
IsIncreasing (blob ∷ blobs) = Increasing blob blobs
