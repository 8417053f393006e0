-- ===== src/Snapshot/Exact.antt =====
-- A tree that verifies is the one that the manifest describes; and so is what a deployment puts in place.
use skill_hive.Prelude.{
  ℕ, String, ◌≡◌, refl, sym, subst, Bool, true, false, Option, none, some, List, [], ◌∷◌, inl, inr,
  nat_eq_iff, length, eq_iff, arith,
}
use skill_hive.Deploy.{
  Disk, Fate, returned, DeploymentRequest, DeploymentResult, deploy, verified_entry, Snapshots,
}
use skill_hive.Deploy.Rules.{Ends}
use skill_hive.Deploy.Steps.{On, Sealed, Kept}
use skill_hive.Deploy.Safety.{deploy_keeps_target}
use skill_hive.Snapshot.Manifest.{SkillSnapshotFile, SkillSnapshotManifest}
use skill_hive.Snapshot.Verify.{
  TreeFile, Tree, SnapshotVerificationError, SkillSnapshotRef, Verified, ◌>>=◌, expect, verify_file,
  verify_files, verify_materialized_snapshot, is_verified, verifies_as, snapshots,
}

expect-passed :
    {A : Type 0} (b : Bool) (e : SnapshotVerificationError) (rest : Unit {0} → Verified A) {a : A}
    → (expect b e >>= rest) ≡ inr a
    → (b ≡ true) × (rest tt ≡ inr a)
expect-passed true e rest h = (refl, h)
expect-passed false e rest h = cc

verified-bind :
    {A B : Type 0} (first : Verified A) (rest : A → Verified B) {b : B}
    → (first >>= rest) ≡ inr b
    → (a : A) × (first ≡ inr a) × (rest a ≡ inr b)
verified-bind (inl e) rest h = cc
verified-bind (inr a) rest h = (a, refl, h)

module _ (digest : List ℕ → String) where
  -- The tree has the files of the manifest, in order: their paths, their sizes and their hashes.
  abbrev pub Describes : List SkillSnapshotFile → Tree → Type 0
  Describes [] [] = Unit {0}
  Describes [] (actual ∷ tree) = ⊥
  Describes (expected ∷ files) [] = ⊥
  Describes (expected ∷ files) (actual ∷ tree) =
      (actual.path ≡ expected.path)
      × (length actual.bytes ≡ expected.size_bytes)
      × (digest actual.bytes ≡ expected.blob_hash)
      × Describes files tree

  verify_file-passed :
      (expected : SkillSnapshotFile) (actual : TreeFile) (total total' : ℕ)
      → verify_file digest expected actual total ≡ inr total'
      → (actual.path ≡ expected.path)
        × (length actual.bytes ≡ expected.size_bytes)
        × (digest actual.bytes ≡ expected.blob_hash)
  unfolding verify_file
  verify_file-passed expected actual total total' h =
      let (named, h1) = expect-passed _ _ _ h in
      let (sized, h2) = expect-passed _ _ _ h1 in
      let (hashed, h3) = expect-passed _ _ _ h2 in
      (
        sym ((eq_iff expected.path actual.path).0 named),
        (nat_eq_iff (length actual.bytes) expected.size_bytes).0 sized,
        (eq_iff (digest actual.bytes) expected.blob_hash).0 hashed,
      )

  verify_files-Describes :
      (files : List SkillSnapshotFile) (tree : Tree) (total total' : ℕ)
      → length tree ≡ length files
      → verify_files digest files tree total ≡ inr total'
      → Describes files tree
  unfolding verify_files
  verify_files-Describes [] [] total total' n h = tt
  verify_files-Describes [] (actual ∷ tree) total total' n h = absurd (omega arith)
  verify_files-Describes (expected ∷ files) [] total total' n h = absurd (omega arith)
  verify_files-Describes (expected ∷ files) (actual ∷ tree) total total' n h =
      let (middle, first, rest) =
        verified-bind (verify_file digest expected actual total) (verify_files digest files tree)
          h in
      let (named, sized, hashed) = verify_file-passed expected actual total middle first in
      (named, sized, hashed, verify_files-Describes files tree middle total' (omega arith) rest)

  verify-Describes :
      (hash : String) (manifest : SkillSnapshotManifest) (tree : Tree) (ref : SkillSnapshotRef)
      → verify_materialized_snapshot digest hash manifest tree ≡ inr ref
      → Describes manifest.files tree
  unfolding verify_materialized_snapshot
  verify-Describes hash manifest tree ref h =
      let (counted, h1) = expect-passed _ _ _ h in
      let (total, looped, h2) = verified-bind (verify_files digest manifest.files tree 0) _ h1 in
      verify_files-Describes manifest.files tree 0 total
        ((nat_eq_iff (length tree) (length manifest.files)).0 counted) looped

module _ (digest : List ℕ → String) (manifest_of : String → Option SkillSnapshotManifest) where
  -- The destination has the files of the manifest with this hash, and no others.
  abbrev pub HoldsExactly : String → Option Tree → Type 0
  HoldsExactly hash destination =
      (tree : Tree) × (manifest : SkillSnapshotManifest) × (destination ≡ some tree)
      × (manifest_of hash ≡ some manifest)
      × Describes digest manifest.files tree

  verified-Describes :
      (hash : String) (manifest : SkillSnapshotManifest) (tree : Tree)
      (r : Verified SkillSnapshotRef)
      → verify_materialized_snapshot digest hash manifest tree ≡ r
      → is_verified digest r ≡ true
      → Describes digest manifest.files tree
  verified-Describes hash manifest tree (inl e) h t = cc
  verified-Describes hash manifest tree (inr ref) h t =
      verify-Describes digest hash manifest tree ref h

  read-HoldsExactly :
      (hash : String) (tree : Tree) (read : Option SkillSnapshotManifest)
      → manifest_of hash ≡ read
      → verifies_as digest hash tree read ≡ true
      → HoldsExactly hash (some tree)
  read-HoldsExactly hash tree none found t = cc
  read-HoldsExactly hash tree (some manifest) found t =
      (tree, manifest, refl, found, verified-Describes hash manifest tree _ refl t)

  module _ (materialize : String → Option Tree) (touched : Tree → Tree) where
    abbrev engine : Snapshots Tree
    engine = snapshots digest manifest_of materialize touched

    verified-HoldsExactly :
        (hash : String) (destination : Option Tree)
        → verified_entry engine hash destination ≡ true
        → HoldsExactly hash destination
    verified-HoldsExactly hash none t = cc
    verified-HoldsExactly hash (some tree) t = read-HoldsExactly hash tree _ refl t

    -- A deployment over an existing target, with a fresh journal and no backup, that returns leaves a
    -- tree in place that has the files of the manifest of the request, in order, by path, size and
    -- hash, and no others; and it leaves no backup. This holds whatever fails on the way, for every
    -- materialization, and whatever other programs made of the tree by the time it is verified in its
    -- place; what they do to it after that is not covered.
    pub deployed_is_exact :
        (id : String) (request : DeploymentRequest) (old : Tree) (fates after : List (Fate Tree))
        (d d' : Disk Tree) (result : DeploymentResult)
        → d.destination ≡ some old
        → d.backup ≡ none
        → d.journal ≡ none
        → deploy engine id request fates d ≡ (returned result, after, d')
        → HoldsExactly request.snapshot_hash d'.destination × (d'.backup ≡ none)
    deployed_is_exact id request old fates after d d' result there free fresh run =
        let done =
          subst
            (Ends (λ r. On request.snapshot_hash (Sealed engine request.snapshot_hash))
              (On request.snapshot_hash (Kept engine request.snapshot_hash old)))
            run (deploy_keeps_target engine old id request fates d there free fresh) in
        (verified-HoldsExactly request.snapshot_hash d'.destination done.held.0, done.held.1)
