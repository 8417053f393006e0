-- ===== src/Deploy/Names.antt =====
-- Which requests and journals frontend/src-tauri/src/deployment.rs accepts: the names of a transaction
-- and of a skill directory, and paths below the skill root. Paths are those of Unix.
use skill_hive.Prelude.{
  ℕ, String, ◌<>◌, Bool, true, false, not, ◌&&◌, ◌||◌, Option, none, some, List, [], ◌∷◌, ◌-◌,
  nat_eq, leb, codes, is_blank, if◌then◌else◌, ◌⊎◌, inl, inr,
}
use skill_hive.Deploy.Journal.{
  DeploymentError, invalid_request, invalid_transaction_id, invalid_directory_name, invalid_journal,
  DeploymentRequest, DeploymentJournal,
}

unfoldable pub same_codes : List ℕ → List ℕ → Bool
same_codes [] [] = true
same_codes (a ∷ s) (b ∷ t) = nat_eq a b && same_codes s t
same_codes s t = false

unfoldable pub starts_with : List ℕ → List ℕ → Bool
starts_with [] text = true
starts_with (p ∷ prefix) (c ∷ text) = nat_eq p c && starts_with prefix text
starts_with (p ∷ prefix) [] = false

unfoldable pub ends_with : ℕ → List ℕ → Bool
ends_with c [] = false
ends_with c (d ∷ []) = nat_eq c d
ends_with c (d ∷ e ∷ text) = ends_with c (e ∷ text)

abbrev pub reserved_prefix : String
reserved_prefix = ".skillhive-"

-- `char::is_control`
abbrev is_control : ℕ → Bool
is_control c = leb c 31 || (leb 127 c && leb c 159)

-- `'<' | '>' | ':' | '"' | '\\' | '|' | '?' | '*'`
abbrev is_special : ℕ → Bool
is_special c =
    nat_eq c 60
    || nat_eq c 62
    || nat_eq c 58
    || nat_eq c 34
    || nat_eq c 92
    || nat_eq c 124
    || nat_eq c 63
    || nat_eq c 42

unfoldable pub has_forbidden : List ℕ → Bool
has_forbidden [] = false
has_forbidden (c ∷ text) = is_control c || is_special c || has_forbidden text

-- The text up to its first `stop`.
unfoldable pub up_to : ℕ → List ℕ → List ℕ
up_to stop [] = []
up_to stop (c ∷ text) = let rest = up_to stop text in if nat_eq stop c then [] else c ∷ rest

-- What `Path::components` passes over behind a component: slashes, and dots that are a component of their
-- own. `fresh` says whether a component would start here.
unfoldable pub is_passed_over : Bool → List ℕ → Bool
is_passed_over fresh [] = true
is_passed_over fresh (c ∷ text) =
    (nat_eq 47 c || (fresh && nat_eq 46 c)) && is_passed_over (nat_eq 47 c) text

-- The component of a path that is one name, with nothing behind it but what is passed over.
unfoldable pub one_component : List ℕ → Bool
one_component [] = true
one_component (c ∷ text) = if nat_eq 47 c then is_passed_over true text else one_component text

-- `(Some(Component::Normal(_)), None)`
is_single_name : List ℕ → Bool
unfolding same_codes one_component up_to
is_single_name text =
    let name = up_to 47 text in
    not (same_codes name [])
    && not (same_codes name (codes "."))
    && not (same_codes name (codes ".."))
    && one_component text

-- `to_ascii_uppercase`
abbrev ascii_uppercase : ℕ → ℕ
ascii_uppercase c = if leb 97 c && leb c 122 then c - 32 else c

unfoldable pub uppercase : List ℕ → List ℕ
uppercase [] = []
uppercase (c ∷ text) = ascii_uppercase c ∷ uppercase text

unfoldable pub is_port : List ℕ → Bool
unfolding same_codes
is_port (a ∷ b ∷ c ∷ n ∷ []) =
    (same_codes (a ∷ b ∷ c ∷ []) (codes "COM") || same_codes (a ∷ b ∷ c ∷ []) (codes "LPT"))
    && leb 49 n
    && leb n 57
is_port text = false

unfoldable pub is_device : List ℕ → Bool
unfolding same_codes is_port
is_device stem =
    same_codes stem (codes "CON")
    || same_codes stem (codes "PRN")
    || same_codes stem (codes "AUX")
    || same_codes stem (codes "NUL")
    || is_port stem

unfoldable pub is_directory_name : List ℕ → Bool
unfolding starts_with ends_with has_forbidden is_single_name is_device uppercase up_to
is_directory_name text =
    not (starts_with (codes reserved_prefix) text)
    && not (ends_with 46 text)
    && not (ends_with 32 text)
    && not (has_forbidden text)
    && is_single_name text
    && not (is_device (uppercase (up_to 46 text)))

abbrev pub Checked : Type 0
Checked = DeploymentError ⊎ Unit {0}

abbrev pub then_check : Checked → Checked → Checked
then_check (inl e) next = inl e
then_check (inr u) next = next

abbrev pub reject_when : Bool → DeploymentError → Checked
reject_when true e = inl e
reject_when false e = inr tt

unfoldable pub validate_directory_name : String → Checked
unfolding is_directory_name
validate_directory_name name =
    reject_when (not (is_directory_name (codes name))) (invalid_directory_name name)

-- `is_ascii_alphanumeric() || byte == b'-'`
abbrev is_id_byte : ℕ → Bool
is_id_byte c =
    (leb 48 c && leb c 57) || (leb 65 c && leb c 90) || (leb 97 c && leb c 122) || nat_eq c 45

all_id_bytes : List ℕ → Bool
all_id_bytes [] = true
all_id_bytes (c ∷ text) = is_id_byte c && all_id_bytes text

unfoldable pub is_transaction_id : List ℕ → Bool
unfolding all_id_bytes same_codes
is_transaction_id text = not (same_codes text []) && all_id_bytes text

unfoldable pub validate_transaction_id : String → Checked
unfolding is_transaction_id
validate_transaction_id value =
    reject_when (not (is_transaction_id (codes value))) (invalid_transaction_id value)

-- `Path::is_absolute`
abbrev pub is_absolute : String → Bool
is_absolute path = starts_with (47 ∷ []) (codes path)

abbrev pub must_not_be_empty : String → String → Checked
must_not_be_empty field value =
    reject_when (is_blank value) (invalid_request (field <> " must not be empty"))

unfoldable pub validate_request : DeploymentRequest → Checked
unfolding is_blank validate_directory_name starts_with
validate_request request = then_check (must_not_be_empty "skill_id" request.skill_id) (
    then_check (must_not_be_empty "agent_profile_id" request.agent_profile_id) (
      then_check (must_not_be_empty "snapshot_hash" request.snapshot_hash) (
        then_check (must_not_be_empty "directory_name" request.directory_name) (
          then_check (validate_directory_name request.directory_name) (
            reject_when (not (is_absolute request.skill_root))
              (invalid_request "skill_root must be an absolute UTF-8 path"))))))

abbrev extended : ℕ → Option (List ℕ) → Option (List ℕ)
extended c none = none
extended c (some path) = some (c ∷ path)

-- `Path::parent`: what stands before the slash of the last component.
unfoldable pub parent : List ℕ → Option (List ℕ)
unfolding one_component
parent [] = none
parent (c ∷ text) =
    let rest = parent text in if nat_eq 47 c && one_component text then some [] else extended c rest

abbrev is_path : Option (List ℕ) → List ℕ → Bool
is_path none root = false
is_path (some p) root = same_codes p root

unfoldable pub is_child : String → String → Bool
unfolding parent same_codes
is_child root path = is_path (parent (codes path)) (codes root)

unfoldable pub validate_journal_paths : DeploymentJournal → Checked
unfolding is_child starts_with
validate_journal_paths j =
    then_check
      (reject_when (not (is_absolute j.skill_root)) (invalid_journal "relative skill root"))
      (reject_when
        (not (
          is_child j.skill_root j.destination
          && is_child j.skill_root j.staging
          && is_child j.skill_root j.backup))
        (invalid_journal "path outside its skill root"))
