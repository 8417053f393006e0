-- ===== src/Snapshot/Manifest.antt =====
-- `validate_manifest` of frontend/src-tauri/src/skill_snapshot.rs, with its checks of paths, hashes and
-- sizes. Texts are the lists of their code points.
use skill_hive.Prelude.{
  ℕ, ◌+◌, ◌^◌, ◌*◌, String, Bool, true, false, not, ◌&&◌, ◌||◌, Option, none, some, List, [], ◌∷◌,
  ◌⊎◌, inl, inr, nat_eq, ltb, leb, length, codes, if◌then◌else◌, ◌==◌,
}
use skill_hive.Deploy.{
  same_codes, starts_with, ends_with, has_forbidden, up_to, uppercase, is_device,
}

pub record SnapshotPolicy : Type 0 where
  pub max_files : ℕ
  pub max_file_bytes : ℕ
  pub max_total_bytes : ℕ

abbrev pub default_policy : SnapshotPolicy
default_policy = record {
  max_files = 10000;
  max_file_bytes = 64 * 1024 * 1024;
  max_total_bytes = 512 * 1024 * 1024;
}

pub record SkillSnapshotFile : Type 0 where
  pub path : String
  pub blob_hash : String
  pub size_bytes : ℕ

pub record SkillSnapshotManifest : Type 0 where
  pub format_version : ℕ
  pub files : List SkillSnapshotFile

pub data SnapshotError : Type 0 where
  unsupported_format : ℕ → SnapshotError
  too_many_files : ℕ → SnapshotError
  invalid_manifest_path : SnapshotError
  manifest_not_strictly_sorted : SnapshotError
  invalid_blob_hash : String → SnapshotError
  file_too_large : String → SnapshotError
  size_overflow : SnapshotError
  snapshot_too_large : ℕ → SnapshotError
  missing_entrypoint : SnapshotError

-- `str::len`: the bytes of a code point in UTF-8.
abbrev bytes_of : ℕ → ℕ
bytes_of c = if ltb c 128 then 1 else if ltb c 2048 then 2 else if ltb c 65536 then 3 else 4

pub byte_length : List ℕ → ℕ
byte_length [] = 0
byte_length (c ∷ text) = bytes_of c + byte_length text

-- `validate_portable_segment`
unfoldable pub is_portable_segment : List ℕ → Bool
unfolding same_codes byte_length ends_with has_forbidden is_device uppercase up_to
is_portable_segment value =
    not (same_codes value [])
    && not (same_codes value (codes "."))
    && not (same_codes value (codes ".."))
    && leb (byte_length value) 255
    && not (ends_with 32 value)
    && not (ends_with 46 value)
    && not (has_forbidden value)
    && not (is_device (uppercase (up_to 46 value)))

abbrev cons_first : ℕ → List (List ℕ) → List (List ℕ)
cons_first c [] = (c ∷ []) ∷ []
cons_first c (part ∷ parts) = (c ∷ part) ∷ parts

-- `value.split('/')`
unfoldable pub segments : List ℕ → List (List ℕ)
segments [] = [] ∷ []
segments (c ∷ text) =
    let rest = segments text in if nat_eq 47 c then [] ∷ rest else cons_first c rest

all_portable : List (List ℕ) → Bool
unfolding is_portable_segment
all_portable [] = true
all_portable (part ∷ parts) = is_portable_segment part && all_portable parts

contains_code : ℕ → List ℕ → Bool
contains_code c [] = false
contains_code c (d ∷ text) = nat_eq c d || contains_code c text

-- `portable_path_to_relative`: whether the path is accepted.
unfoldable pub is_portable_path : List ℕ → Bool
unfolding same_codes starts_with contains_code all_portable segments
is_portable_path value =
    not (same_codes value [])
    && not (starts_with (47 ∷ []) value)
    && not (contains_code 92 value)
    && all_portable (segments value)

-- `left < right` on `&str`.
unfoldable pub text_lt : List ℕ → List ℕ → Bool
text_lt left [] = false
text_lt [] (d ∷ right) = true
text_lt (c ∷ left) (d ∷ right) = ltb c d || (nat_eq c d && text_lt left right)

abbrev is_lower_hex : ℕ → Bool
is_lower_hex c = (leb 48 c && leb c 57) || (leb 97 c && leb c 102)

all_lower_hex : List ℕ → Bool
all_lower_hex [] = true
all_lower_hex (c ∷ text) = is_lower_hex c && all_lower_hex text

unfoldable pub after_prefix : List ℕ → List ℕ → List ℕ
after_prefix [] text = text
after_prefix (p ∷ prefix) [] = []
after_prefix (p ∷ prefix) (c ∷ text) = after_prefix prefix text

-- `str::strip_prefix`
abbrev without_prefix : List ℕ → List ℕ → Option (List ℕ)
without_prefix prefix text =
    if starts_with prefix text then some (after_prefix prefix text) else none

is_digest : Option (List ℕ) → Bool
unfolding all_lower_hex
is_digest none = false
is_digest (some digest) = nat_eq (length digest) 64 && all_lower_hex digest

unfoldable pub is_canonical_sha256 : String → Bool
unfolding is_digest starts_with after_prefix
is_canonical_sha256 value = is_digest (without_prefix (codes "sha256:") (codes value))

abbrev pub Checked : Type 0 → Type 0
Checked A = SnapshotError ⊎ A

infixl 5 ◌>>=◌
abbrev pub ◌>>=◌ : {A B : Type 0} → Checked A → (A → Checked B) → Checked B
inl e >>= rest = inl e
inr a >>= rest = rest a

abbrev pub require : Bool → SnapshotError → Checked (Unit {0})
require true e = inr tt
require false e = inl e

-- `current.checked_add(additional)` on 64 bits.
unfoldable pub checked_add : ℕ → ℕ → Checked ℕ
checked_add current additional =
    if ltb (current + additional) (2 ^ 64) then inr (current + additional) else inl size_overflow

unfoldable pub add_and_enforce_total : ℕ → ℕ → SnapshotPolicy → Checked ℕ
unfolding checked_add
add_and_enforce_total current additional policy = do
  total ← checked_add current additional
  within ← require (leb total policy.max_total_bytes) (snapshot_too_large total)
  inr total

unfoldable pub enforce_file_size : SkillSnapshotFile → SnapshotPolicy → Checked (Unit {0})
enforce_file_size file policy =
    require (leb file.size_bytes policy.max_file_bytes) (file_too_large file.path)

-- The variables of the loop.
pub record Seen : Type 0 where
  pub previous : Option String
  pub has_entrypoint : Bool
  pub total_bytes : ℕ

abbrev pub in_order : Option String → String → Bool
in_order none path = true
in_order (some value) path = text_lt (codes value) (codes path)

unfoldable pub validate_file : SnapshotPolicy → SkillSnapshotFile → Seen → Checked Seen
unfolding is_portable_path text_lt is_canonical_sha256 enforce_file_size add_and_enforce_total
validate_file policy file seen = do
  portable ← require (is_portable_path (codes file.path)) invalid_manifest_path
  sorted ← require (in_order seen.previous file.path) manifest_not_strictly_sorted
  canonical ← require (is_canonical_sha256 file.blob_hash) (invalid_blob_hash file.blob_hash)
  bounded ← enforce_file_size file policy
  total ← add_and_enforce_total seen.total_bytes file.size_bytes policy
  inr (record {
    previous = some file.path;
    has_entrypoint = seen.has_entrypoint || file.path == "SKILL.md";
    total_bytes = total;
  })

unfoldable pub validate_files : SnapshotPolicy → List SkillSnapshotFile → Seen → Checked Seen
validate_files policy [] seen = inr seen
validate_files policy (file ∷ files) seen =
    validate_file policy file seen >>= validate_files policy files

abbrev pub nothing_seen : Seen
nothing_seen = record { previous = none; has_entrypoint = false; total_bytes = 0 }

unfoldable pub validate_manifest : SkillSnapshotManifest → SnapshotPolicy → Checked (Unit {0})
validate_manifest manifest policy = do
  few ← require (leb (length manifest.files) policy.max_files) (too_many_files policy.max_files)
  seen ← validate_files policy manifest.files nothing_seen
  require seen.has_entrypoint missing_entrypoint

-- `read_manifest_with_policy`, once the manifest is decoded.
unfoldable pub accept_manifest :
    SkillSnapshotManifest → SnapshotPolicy → Checked SkillSnapshotManifest
unfolding validate_manifest
accept_manifest manifest policy = do
  known ← require (nat_eq manifest.format_version 1) (unsupported_format manifest.format_version)
  valid ← validate_manifest manifest policy
  inr manifest
