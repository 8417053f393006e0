-- ===== src/Prelude/Lookups.antt =====
-- What an UPDATE does to the row that a key finds.
use mathlib.Core.Path.{◌≡◌, refl}
use mathlib.Core.Bool.{Bool, true, false}
use mathlib.Core.Option
use mathlib.Core.Option.{Option, none, some}
use mathlib.Core.List.{List, [], ◌∷◌, ◌++◌}
use native.Mathlib.Omega.{arith}
use mathlib.Core.Logic.{inl, inr}
use skill_hive.Prelude.Tests.{Bool-cases}
use skill_hive.Prelude.Tables.{find_where, exists_where, update_where, delete_where, updated}

module _ {ℓ} {A : Type ℓ} (q p : A → Bool) (f : A → A) where
  -- An UPDATE that keeps the key updates the row that the key finds.
  pub find_where-update_where :
      (xs : List A)
      → ((x : A) → q (f x) ≡ q x)
      → find_where q (update_where p f xs) ≡ Option.map (updated p f) (find_where q xs)
  find_where-update_where [] keeps = refl
  find_where-update_where (x ∷ xs) keeps = ground (arith, keeps x, find_where-update_where xs keeps)

module _ {ℓ} {A : Type ℓ} (q : A → Bool) (f : A → A) where
  -- An UPDATE of the rows with the key that is looked up.
  pub find_where-update_hit :
      (xs : List A) (a : A)
      → ((x : A) → q (f x) ≡ q x)
      → find_where q xs ≡ some a
      → find_where q (update_where q f xs) ≡ some (f a)
  find_where-update_hit [] a keeps h = cc
  find_where-update_hit (x ∷ xs) a keeps h =
      ground (arith, keeps x, find_where-update_hit xs a keeps)

  -- An UPDATE of other rows.
  pub find_where-update_miss :
      (p : A → Bool) (xs : List A)
      → ((x : A) → q (f x) ≡ q x)
      → ((x : A) → q x ≡ true → p x ≡ false)
      → find_where q (update_where p f xs) ≡ find_where q xs
  find_where-update_miss p [] keeps apart = refl
  find_where-update_miss p (x ∷ xs) keeps apart =
      ground (arith, keeps x, apart x, find_where-update_miss p xs keeps apart)

module _ {ℓ} {A : Type ℓ} (q : A → Bool) where
  pub find_where-exists :
      (xs : List A) → exists_where q xs ≡ true → (a : A) × (find_where q xs ≡ some a)
  find_where-exists [] h = cc
  find_where-exists (x ∷ xs) h = elim (Bool-cases (q x)) [
    | inl e ↦ (x, rw e refl)
    | inr e ↦ rw e (find_where-exists xs (ground arith))
  ]

  pub find_where-not_exists : (xs : List A) → exists_where q xs ≡ false → find_where q xs ≡ none
  find_where-not_exists [] h = refl
  find_where-not_exists (x ∷ xs) h = ground (arith, find_where-not_exists xs)

  pub find_where-append_none :
      (xs ys : List A) → find_where q xs ≡ none → find_where q (xs ++ ys) ≡ find_where q ys
  find_where-append_none [] ys h = refl
  find_where-append_none (x ∷ xs) ys h = ground (arith, find_where-append_none xs ys)

  pub find_where-append_some :
      (xs ys : List A) (a : A) → find_where q xs ≡ some a → find_where q (xs ++ ys) ≡ some a
  find_where-append_some [] ys a h = cc
  find_where-append_some (x ∷ xs) ys a h = ground (arith, find_where-append_some xs ys a)

  pub find_where-delete_where :
      (p : A → Bool) (xs : List A)
      → ((x : A) → q x ≡ true → p x ≡ false)
      → find_where q (delete_where p xs) ≡ find_where q xs
  find_where-delete_where p [] apart = refl
  find_where-delete_where p (x ∷ xs) apart =
      ground (arith, apart x, find_where-delete_where p xs apart)

  pub find_where-append_miss :
      (xs : List A) (a : A) → q a ≡ false → find_where q (xs ++ (a ∷ [])) ≡ find_where q xs
  find_where-append_miss [] a h = ground arith
  find_where-append_miss (x ∷ xs) a h = ground (arith, find_where-append_miss xs a h)

  pub find_where-some_exists :
      (xs : List A) (a : A) → find_where q xs ≡ some a → exists_where q xs ≡ true
  find_where-some_exists [] a h = cc
  find_where-some_exists (x ∷ xs) a h = ground (arith, find_where-some_exists xs a)
