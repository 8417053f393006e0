-- ===== src/Snapshot/Needed.antt =====
-- What the closure of a snapshot holds, and in which order.
use skill_hive.Prelude.{
  ℕ, String, ◌≡◌, refl, sym, ap, subst, ◌∙◌, true, false, ◌||◌, inl, inr, List, [], ◌∷◌, ◌++◌, map,
  codes, arith, Bool-cases,
}
use skill_hive.Deploy.{same_codes}
use skill_hive.Snapshot.Manifest.{SkillSnapshotFile, SkillSnapshotManifest, text_lt}
use skill_hive.Snapshot.Closure.{
  BlobDescriptor, key, from_snapshot_file, placed, sorted, deduped_after, deduped, snapshot_closure,
  has_hash, file_has_hash, Increasing, IsIncreasing,
}

same_codes-eq : (a b : List ℕ) → same_codes a b ≡ true → a ≡ b
unfolding same_codes
same_codes-eq [] [] h = refl
same_codes-eq [] (y ∷ b) h = cc
same_codes-eq (x ∷ a) [] h = cc
same_codes-eq (x ∷ a) (y ∷ b) h = ground (arith, same_codes-eq a b)

-- Of two texts that differ, one is less.
text_lt_total : (a b : List ℕ) → same_codes a b ≡ false → text_lt b a ≡ false → text_lt a b ≡ true
unfolding same_codes text_lt
text_lt_total [] [] h k = cc
text_lt_total [] (y ∷ b) h k = refl
text_lt_total (x ∷ a) [] h k = cc
text_lt_total (x ∷ a) (y ∷ b) h k = ground (arith, text_lt_total a b)

text_lt_asym : (a b : List ℕ) → text_lt a b ≡ true → text_lt b a ≡ false
unfolding text_lt
text_lt_asym a [] h = cc
text_lt_asym [] (y ∷ b) h = refl
text_lt_asym (x ∷ a) (y ∷ b) h = ground (arith, text_lt_asym a b)

-- No blob is less than the one before it.
abbrev Ordered : BlobDescriptor → List BlobDescriptor → Type 0
Ordered blob [] = Unit {0}
Ordered blob (other ∷ others) = (text_lt (key other) (key blob) ≡ false) × Ordered other others

abbrev IsOrdered : List BlobDescriptor → Type 0
IsOrdered [] = Unit {0}
IsOrdered (blob ∷ blobs) = Ordered blob blobs

placed-Ordered :
    (first blob : BlobDescriptor) (others : List BlobDescriptor)
    → text_lt (key blob) (key first) ≡ false
    → Ordered first others
    → Ordered first (placed blob others)
unfolding placed
placed-Ordered first blob [] h ordered = (h, tt)
placed-Ordered first blob (other ∷ others) h (k, ordered) =
    elim (Bool-cases (text_lt (key other) (key blob))) [
      | inl before ↦
          rw before (k, placed-Ordered other blob others (text_lt_asym _ _ before) ordered)
      | inr behind ↦ rw behind (h, (behind, ordered))
    ]

placed-IsOrdered :
    (blob : BlobDescriptor) (others : List BlobDescriptor)
    → IsOrdered others
    → IsOrdered (placed blob others)
unfolding placed
placed-IsOrdered blob [] ordered = tt
placed-IsOrdered blob (other ∷ others) ordered =
    elim (Bool-cases (text_lt (key other) (key blob))) [
      | inl before ↦ rw before (placed-Ordered other blob others (text_lt_asym _ _ before) ordered)
      | inr behind ↦ rw behind (behind, ordered)
    ]

sorted-IsOrdered : (blobs : List BlobDescriptor) → IsOrdered (sorted blobs)
unfolding sorted
sorted-IsOrdered [] = tt
sorted-IsOrdered (blob ∷ blobs) = placed-IsOrdered blob (sorted blobs) (sorted-IsOrdered blobs)

Ordered-same :
    (blob other : BlobDescriptor) (others : List BlobDescriptor)
    → key blob ≡ key other
    → Ordered other others
    → Ordered blob others
Ordered-same blob other [] e ordered = tt
Ordered-same blob other (next ∷ others) e (k, ordered) =
    (subst (λ t. text_lt (key next) t ≡ false) (sym e) k, ordered)

deduped_after-Increasing :
    (blob : BlobDescriptor) (others : List BlobDescriptor)
    → Ordered blob others
    → Increasing blob (deduped_after blob others)
unfolding deduped_after
deduped_after-Increasing blob [] ordered = tt
deduped_after-Increasing blob (other ∷ others) (k, ordered) =
    elim (Bool-cases (same_codes (key blob) (key other))) [
      | inl same ↦ rw same (
          deduped_after-Increasing blob others
            (Ordered-same blob other others (same_codes-eq _ _ same) ordered))
      | inr differs ↦
          rw differs (text_lt_total _ _ differs k, deduped_after-Increasing other others ordered)
    ]

deduped-IsIncreasing :
    (blobs : List BlobDescriptor) → IsOrdered blobs → IsIncreasing (deduped blobs)
unfolding deduped
deduped-IsIncreasing [] ordered = tt
deduped-IsIncreasing (blob ∷ blobs) ordered = deduped_after-Increasing blob blobs ordered

has_hash-placed :
    (k : List ℕ) (blob : BlobDescriptor) (others : List BlobDescriptor)
    → has_hash k (placed blob others) ≡ (same_codes k (key blob) || has_hash k others)
unfolding placed
has_hash-placed k blob [] = refl
has_hash-placed k blob (other ∷ others) = ground (arith, has_hash-placed k blob others)

has_hash-sorted :
    (k : List ℕ) (blobs : List BlobDescriptor) → has_hash k (sorted blobs) ≡ has_hash k blobs
unfolding sorted
has_hash-sorted k [] = refl
has_hash-sorted k (blob ∷ blobs) =
    has_hash-placed k blob (sorted blobs)
    ∙ ap (λ b. same_codes k (key blob) || b) (has_hash-sorted k blobs)

has_hash-deduped_after :
    (k : List ℕ) (blob : BlobDescriptor) (others : List BlobDescriptor)
    → (same_codes k (key blob) || has_hash k (deduped_after blob others))
      ≡ (same_codes k (key blob) || has_hash k others)
unfolding deduped_after
has_hash-deduped_after k blob [] = refl
has_hash-deduped_after k blob (other ∷ others) =
    elim (Bool-cases (same_codes (key blob) (key other))) [
      | inl same ↦
          let e : same_codes k (key blob) ≡ same_codes k (key other) =
            ap (same_codes k) (same_codes-eq _ _ same) in
          ground (arith, has_hash-deduped_after k blob others)
      | inr differs ↦ ground (arith, has_hash-deduped_after k other others)
    ]

has_hash-deduped :
    (k : List ℕ) (blobs : List BlobDescriptor) → has_hash k (deduped blobs) ≡ has_hash k blobs
unfolding deduped
has_hash-deduped k [] = refl
has_hash-deduped k (blob ∷ blobs) = has_hash-deduped_after k blob blobs

has_hash-files :
    (k : List ℕ) (files : List SkillSnapshotFile) (last : BlobDescriptor)
    → has_hash k (map from_snapshot_file files ++ last ∷ [])
      ≡ (file_has_hash k files || same_codes k (key last))
has_hash-files k [] last = ground arith
has_hash-files k (file ∷ files) last = ground (arith, has_hash-files k files last)

-- The closure of a snapshot holds exactly the hashes of its files and the hash of its manifest, in
-- strictly increasing order, so each hash once, however often the files repeat it.
pub closure_is_exact :
    (manifest_hash : String) (size : ℕ) (manifest : SkillSnapshotManifest)
    → ((k : List ℕ)
        → has_hash k (snapshot_closure manifest_hash size manifest)
          ≡ (file_has_hash k manifest.files || same_codes k (codes manifest_hash)))
      × IsIncreasing (snapshot_closure manifest_hash size manifest)
unfolding snapshot_closure
closure_is_exact manifest_hash size manifest =
    let blobs =
      map from_snapshot_file manifest.files
      ++ record { hash = manifest_hash; size_bytes = size } ∷ [] in
    (
      λ k.
          has_hash-deduped k (sorted blobs)
          ∙ has_hash-sorted k blobs
          ∙ has_hash-files k manifest.files (record { hash = manifest_hash; size_bytes = size }),
      deduped-IsIncreasing (sorted blobs) (sorted-IsOrdered blobs),
    )
