-- ===== src/Snapshot/Accepted.antt =====
-- What an accepted manifest is.
use skill_hive.Prelude.{
  ℕ, ◌+◌, ◌≤◌, String, ◌≡◌, refl, sym, ap, subst, ◌∙◌, Bool, true, false, ◌||◌, Option, none, some,
  List, [], ◌∷◌, ◌⊎◌, inl, inr, Memᴰ, leb→le, length, codes, arith, ◌==◌, eq_iff,
}
use skill_hive.Snapshot.Manifest.{
  SnapshotPolicy, SkillSnapshotFile, SkillSnapshotManifest, SnapshotError, missing_entrypoint, Seen,
  Checked, ◌>>=◌, require, text_lt, is_portable_path, is_canonical_sha256, enforce_file_size,
  add_and_enforce_total, checked_add, in_order, validate_file, validate_files, nothing_seen,
  validate_manifest,
}

pub total_size : List SkillSnapshotFile → ℕ
total_size [] = 0
total_size (file ∷ files) = file.size_bytes + total_size files

-- Each path is less than all later ones, byte by byte.
abbrev pub Precedes : SkillSnapshotFile → List SkillSnapshotFile → Type 0
Precedes file [] = Unit {0}
Precedes file (next ∷ files) =
    (text_lt (codes file.path) (codes next.path) ≡ true) × Precedes file files

abbrev pub IsSorted : List SkillSnapshotFile → Type 0
IsSorted [] = Unit {0}
IsSorted (file ∷ files) = Precedes file files × IsSorted files

abbrev pub IsFine : SnapshotPolicy → SkillSnapshotFile → Type 0
IsFine policy file =
    (is_portable_path (codes file.path) ≡ true)
    × (is_canonical_sha256 file.blob_hash ≡ true)
    × (file.size_bytes ≤ policy.max_file_bytes)

require-passed :
    {A : Type 0} (b : Bool) (e : SnapshotError) (rest : Unit {0} → Checked A) {a : A}
    → (require b e >>= rest) ≡ inr a
    → (b ≡ true) × (rest tt ≡ inr a)
require-passed true e rest h = (refl, h)
require-passed false e rest h = cc

inr-bind :
    {A B : Type 0} (first : Checked A) (rest : A → Checked B) {b : B}
    → (first >>= rest) ≡ inr b
    → (a : A) × (first ≡ inr a) × (rest a ≡ inr b)
inr-bind (inl e) rest h = cc
inr-bind (inr a) rest h = (a, refl, h)

abbrev value_or : {A : Type 0} → A → Checked A → A
value_or a (inl e) = a
value_or a (inr b) = b

inr-injective : {A : Type 0} {a b : A} → ◌≡◌ {A = Checked A} (inr a) (inr b) → a ≡ b
inr-injective {a} h = ap (value_or a) h

or-true : (a b : Bool) → (a || b) ≡ true → (a ≡ true) ⊎ (b ≡ true)
or-true true b h = inl refl
or-true false b h = inr h

abbrev pub HasEntry : List SkillSnapshotFile → Type 0
HasEntry files = (file : SkillSnapshotFile) × Memᴰ file files × (file.path ≡ "SKILL.md")

entry_of :
    (file : SkillSnapshotFile) (files : List SkillSnapshotFile) (seen middle : Seen)
    → middle.has_entrypoint ≡ (seen.has_entrypoint || file.path == "SKILL.md")
    → (middle.has_entrypoint ≡ true) ⊎ HasEntry files
    → (seen.has_entrypoint ≡ true) ⊎ HasEntry (file ∷ files)
entry_of file files seen middle e (inl found) = elim (or-true _ _ (sym e ∙ found)) [
  | inl before ↦ inl before
  | inr here ↦ inr (file, Memᴰ.head refl, (eq_iff file.path "SKILL.md").0 here)
]
entry_of file files seen middle e (inr (other, inside, named)) =
    inr (other, Memᴰ.tail inside, named)

text_lt_trans : (a b c : List ℕ) → text_lt a b ≡ true → text_lt b c ≡ true → text_lt a c ≡ true
unfolding text_lt
text_lt_trans a [] c h k = cc
text_lt_trans [] (y ∷ b) [] h k = cc
text_lt_trans [] (y ∷ b) (z ∷ c) h k = refl
text_lt_trans (x ∷ a) (y ∷ b) [] h k = cc
text_lt_trans (x ∷ a) (y ∷ b) (z ∷ c) h k = ground (arith, text_lt_trans a b c)

-- The next path in order, after the one that was seen before it.
abbrev Chain : Option String → List SkillSnapshotFile → Type 0
Chain previous [] = Unit {0}
Chain previous (file ∷ files) = (in_order previous file.path ≡ true) × Chain (some file.path) files

Chain-Precedes :
    (file : SkillSnapshotFile) (path : String) (files : List SkillSnapshotFile)
    → text_lt (codes file.path) (codes path) ≡ true
    → Chain (some path) files
    → Precedes file files
Chain-Precedes file path [] h chain = tt
Chain-Precedes file path (next ∷ files) h (k, chain) =
    let first = text_lt_trans (codes file.path) (codes path) (codes next.path) h k in
    (first, Chain-Precedes file next.path files first chain)

Chain-first :
    (file : SkillSnapshotFile) (files : List SkillSnapshotFile)
    → Chain (some file.path) files
    → Precedes file files
Chain-first file [] chain = tt
Chain-first file (next ∷ files) (k, chain) = (k, Chain-Precedes file next.path files k chain)

Chain-IsSorted :
    (previous : Option String) (files : List SkillSnapshotFile)
    → Chain previous files
    → IsSorted files
Chain-IsSorted previous [] chain = tt
Chain-IsSorted previous (file ∷ files) (h, chain) =
    (Chain-first file files chain, Chain-IsSorted (some file.path) files chain)

module _ (policy : SnapshotPolicy) where
  -- What one round of the loop has checked and noted.
  record Passed (file : SkillSnapshotFile) (seen seen' : Seen) : Type 0 where
    fine : IsFine policy file
    ordered : in_order seen.previous file.path ≡ true
    noted : seen'.previous ≡ some file.path
    entry : seen'.has_entrypoint ≡ (seen.has_entrypoint || file.path == "SKILL.md")
    total : seen'.total_bytes ≡ seen.total_bytes + file.size_bytes
    bounded : seen'.total_bytes ≤ policy.max_total_bytes

  added :
      (current additional total : ℕ)
      → add_and_enforce_total current additional policy ≡ inr total
      → (total ≡ current + additional) × (total ≤ policy.max_total_bytes)
  unfolding add_and_enforce_total checked_add
  added current additional total h = ground arith

  validate_file-Passed :
      (file : SkillSnapshotFile) (seen seen' : Seen)
      → validate_file policy file seen ≡ inr seen'
      → Passed file seen seen'
  unfolding validate_file enforce_file_size
  validate_file-Passed file seen seen' h =
      let (portable, h1) = require-passed _ _ _ h in
      let (ordered, h2) = require-passed _ _ _ h1 in
      let (canonical, h3) = require-passed _ _ _ h2 in
      let (small, h4) = require-passed _ _ _ h3 in
      let (total, sum, e) =
        inr-bind (add_and_enforce_total seen.total_bytes file.size_bytes policy) _ h4 in
      let (same, within) = added seen.total_bytes file.size_bytes total sum in
      subst (Passed file seen) (inr-injective e) (record {
        fine = (portable, canonical, leb→le _ _ small);
        ordered = ordered;
        noted = refl;
        entry = refl;
        total = same;
        bounded = within;
      })

  -- What the loop has checked of all files, from what it had seen before.
  record Looped (files : List SkillSnapshotFile) (seen seen' : Seen) : Type 0 where
    all_fine : (file : SkillSnapshotFile) → Memᴰ file files → IsFine policy file
    chain : Chain seen.previous files
    entry : seen'.has_entrypoint ≡ true → (seen.has_entrypoint ≡ true) ⊎ HasEntry files
    total : seen'.total_bytes ≡ seen.total_bytes + total_size files
    bounded : seen'.total_bytes ≤ policy.max_total_bytes

  validate_files-Looped :
      (files : List SkillSnapshotFile) (seen seen' : Seen)
      → validate_files policy files seen ≡ inr seen'
      → seen.total_bytes ≤ policy.max_total_bytes
      → Looped files seen seen'
  unfolding validate_files total_size
  validate_files-Looped [] seen seen' h le =
      let e : seen ≡ seen' = inr-injective h in
      rw (← e) (record {
        all_fine = λ file inside. elim inside [ ];
        chain = tt;
        entry = λ found. inl found;
        total = omega arith;
        bounded = le;
      })
  validate_files-Looped (file ∷ files) seen seen' h le =
      let (middle, first, rest) =
        inr-bind (validate_file policy file seen) (validate_files policy files) h in
      let p = validate_file-Passed file seen middle first in
      let q = validate_files-Looped files middle seen' rest p.bounded in
      record {
        all_fine = λ other inside. elim inside [
          | Memᴰ.head e ↦ rw e p.fine
          | Memᴰ.tail later ↦ q.all_fine other later
        ];
        chain = (p.ordered, subst (λ previous. Chain previous files) p.noted q.chain);
        entry = λ found. entry_of file files seen middle p.entry (q.entry found);
        total = omega (arith, p.total, q.total);
        bounded = q.bounded;
      }

-- An accepted manifest has no more files than the policy allows, in strictly increasing order of
-- their paths, each of them with a portable path, a canonical hash and a size within the policy. One of
-- them is SKILL.md, and the sum of their sizes is within the policy.
pub accepted_manifest :
    (manifest : SkillSnapshotManifest) (policy : SnapshotPolicy)
    → validate_manifest manifest policy ≡ inr tt
    → (length manifest.files ≤ policy.max_files)
      × IsSorted manifest.files
      × ((file : SkillSnapshotFile) → Memᴰ file manifest.files → IsFine policy file)
      × HasEntry manifest.files
      × (total_size manifest.files ≤ policy.max_total_bytes)
unfolding validate_manifest
accepted_manifest manifest policy h =
    let (few, h1) = require-passed _ _ _ h in
    let (seen, looped, h2) = inr-bind (validate_files policy manifest.files nothing_seen) _ h1 in
    let q = validate_files-Looped policy manifest.files nothing_seen seen looped (omega arith) in
    (
      leb→le _ _ few,
      Chain-IsSorted none manifest.files q.chain,
      q.all_fine,
      found (q.entry (entered seen.has_entrypoint h2)),
      omega (arith, q.total, q.bounded),
    )
  where
    found : (◌≡◌ {A = Bool} false true) ⊎ HasEntry manifest.files → HasEntry manifest.files
    found (inl never) = cc
    found (inr entry) = entry

    entered : (b : Bool) → require b missing_entrypoint ≡ inr tt → b ≡ true
    entered true e = refl
    entered false e = cc
