-- ===== src/Deploy/Apart.antt =====
-- The entries of transactions are apart: a skill directory is never the staged tree or the backup of
-- any transaction.
use skill_hive.Prelude.{
  ℕ, String, ◌<>◌, ◌≡◌, ◌≢◌, refl, sym, ap, ◌∙◌, Bool, true, false, inl, inr, List, [], ◌∷◌, ◌++◌,
  codes, nat_eq_iff, nat_eq, Bool-cases, ◌&&◌,
}
use text.Mathlib.TextLemmas.{nil-append, cons-append, append_assoc, append_cancel_left}
use Prim.Native.Char.{code}
use skill_hive.Deploy.Journal.{DeploymentError, DeploymentRequest}
use skill_hive.Deploy.Names.{
  Checked, starts_with, up_to, reserved_prefix, is_directory_name, validate_directory_name,
  validate_request, then_check, reject_when, must_not_be_empty,
}
use skill_hive.Deploy.Engine.{joined_path, first_record}

codes-append : (s t : String) → codes (s <> t) ≡ codes s ++ codes t
codes-append String.[] t = rw (nil-append t) refl
codes-append (String.◌∷◌ c s) t = rw (cons-append c s t) (ap (λ l. code c ∷ l) (codes-append s t))

starts_with-append : (p text : List ℕ) → starts_with p (p ++ text) ≡ true
unfolding starts_with
starts_with-append [] text = refl
starts_with-append (c ∷ p) text = rw ((nat_eq_iff c c).1 refl) (starts_with-append p text)

starts_with-up_to :
    (p text : List ℕ) → starts_with p (up_to 47 text) ≡ true → starts_with p text ≡ true
unfolding starts_with up_to
starts_with-up_to [] text h = refl
starts_with-up_to (c ∷ p) [] h = h
starts_with-up_to (c ∷ p) (d ∷ text) h = elim (Bool-cases (nat_eq 47 d)) [
  | inl slash ↦ let bad = rw slash at h in cc
  | inr other ↦
      let (same, rest) = both (nat_eq c d) (starts_with p (up_to 47 text)) (rw other at h) in
      rw (same, starts_with-up_to p text rest) refl
]
  where
    both : (a b : Bool) → (a && b) ≡ true → (a ≡ true) × (b ≡ true)
    both true true h = (refl, refl)
    both true false h = cc
    both false b h = cc

then_check-passed : (a b : Checked) → then_check a b ≡ inr tt → (a ≡ inr tt) × (b ≡ inr tt)
then_check-passed (inl e) b h = cc
then_check-passed (inr tt) b h = (refl, h)

reject_when-passed : (b : Bool) (e : DeploymentError) → reject_when b e ≡ inr tt → b ≡ false
reject_when-passed true e h = cc
reject_when-passed false e h = refl

name_is_free :
    (name : String)
    → validate_directory_name name ≡ inr tt
    → starts_with (codes reserved_prefix) (codes name) ≢ true
unfolding validate_directory_name is_directory_name
name_is_free name h starts = let bad = rw starts at h in cc

reserved_starts :
    (name middle id : String)
    → name ≡ ".skillhive-" <> (middle <> id)
    → starts_with (codes reserved_prefix) (codes name) ≡ true
reserved_starts name middle id e =
    rw (e, codes-append ".skillhive-" (middle <> id))
      (starts_with-append (codes ".skillhive-") (codes (middle <> id)))

below_root : (root a b : String) → joined_path root a ≡ joined_path root b → a ≡ b
below_root root a b e = append_cancel_left "/" a b (append_cancel_left root ("/" <> a) ("/" <> b) e)

stage_is_no_backup : (a b : String) → ".skillhive-stage-" <> a ≢ ".skillhive-backup-" <> b
unfolding starts_with
stage_is_no_backup a b e =
    let rest =
      append_cancel_left ".skillhive-" ("stage-" <> a) ("backup-" <> b) (
        sym (append_assoc ".skillhive-" "stage-" a) ∙ e ∙ append_assoc ".skillhive-" "backup-" b) in
    let same = sym (codes-append "stage-" a) ∙ ap codes rest ∙ codes-append "backup-" b in
    let starts = ap (starts_with (115 ∷ [])) same in cc

directory_is_valid :
    (request : DeploymentRequest)
    → validate_request request ≡ inr tt
    → validate_directory_name request.directory_name ≡ inr tt
unfolding validate_request
directory_is_valid request h =
    let (a, rest) = then_check-passed (must_not_be_empty "skill_id" request.skill_id) _ h in
    let (b, rest) =
      then_check-passed (must_not_be_empty "agent_profile_id" request.agent_profile_id) _ rest in
    let (c, rest) =
      then_check-passed (must_not_be_empty "snapshot_hash" request.snapshot_hash) _ rest in
    let (d, rest) =
      then_check-passed (must_not_be_empty "directory_name" request.directory_name) _ rest in
    let (valid, rest) = then_check-passed (validate_directory_name request.directory_name) _ rest in
    valid

-- The path of the target of an accepted request is neither that of the staged tree nor that of the
-- backup of this or any other transaction in the same skill root, and no path of a staged tree is one of
-- a backup. Nor has the entry of the skill root that the target is, which the name gives up to its first
-- slash, a name that begins with the prefix of such trees.
pub entries_are_apart :
    (request other : DeploymentRequest) (id other_id : String) (replaced replaced' : Bool)
    → validate_request request ≡ inr tt
    → request.skill_root ≡ other.skill_root
    → ((first_record id request replaced).destination
        ≢ (first_record other_id other replaced').staging)
      × ((first_record id request replaced).destination
          ≢ (first_record other_id other replaced').backup)
      × ((first_record id request replaced).staging
          ≢ (first_record other_id other replaced').backup)
      × ((rest : String) → up_to 47 (codes request.directory_name) ≢ codes (".skillhive-" <> rest))
entries_are_apart request other id other_id replaced replaced' valid same =
    let name = request.directory_name in
    let free = name_is_free name (directory_is_valid request valid) in
    let under =
      λ (b : String) (e : joined_path request.skill_root name ≡ joined_path other.skill_root b).
        below_root other.skill_root name b (rw same at e) in
    (
      λ e. free (
          reserved_starts name "stage-" other_id (
            under (".skillhive-stage-" <> other_id) e
            ∙ append_assoc ".skillhive-" "stage-" other_id)),
      λ e. free (
          reserved_starts name "backup-" other_id (
            under (".skillhive-backup-" <> other_id) e
            ∙ append_assoc ".skillhive-" "backup-" other_id)),
      λ e. stage_is_no_backup id other_id (
          below_root other.skill_root (".skillhive-stage-" <> id) (".skillhive-backup-" <> other_id)
            (rw same at e)),
      λ rest e. free (
          starts_with-up_to (codes reserved_prefix) (codes name) (
            ap (starts_with (codes reserved_prefix)) (e ∙ codes-append ".skillhive-" rest)
            ∙ starts_with-append (codes ".skillhive-") (codes rest))),
    )
