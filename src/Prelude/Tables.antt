-- ===== src/Prelude/Tables.antt =====
-- SQL statements on a table kept as the list of its rows, in rowid order.
use Prim.Native.Nat.{ℕ, suc}
use mathlib.Core.Path.{◌≡◌, refl, sym, ap, ◌∙◌}
use mathlib.Core.Logic.{inl, inr}
use mathlib.Core.Bool.{Bool, true, false}
use mathlib.Core.Option.{Option, none, some}
use mathlib.Core.List.{List, [], ◌∷◌, Memᴰ}
use native.Mathlib.Omega.{arith}
use skill_hive.Prelude.Tests.{if◌then◌else◌, Bool-cases}

module _ {ℓ} {A : Type ℓ} where
  -- SELECT … WHERE p
  abbrev pub select_where : (A → Bool) → List A → List A
  select_where p [] = []
  select_where p (x ∷ xs) = let rest = select_where p xs in if p x then x ∷ rest else rest

  -- `query_row` of SELECT … WHERE p: the first row.
  abbrev pub find_where : (A → Bool) → List A → Option A
  find_where p [] = none
  find_where p (x ∷ xs) = let rest = find_where p xs in if p x then some x else rest

  -- EXISTS (SELECT 1 … WHERE p)
  abbrev pub exists_where : (A → Bool) → List A → Bool
  exists_where p [] = false
  exists_where p (x ∷ xs) = let rest = exists_where p xs in if p x then true else rest

  -- SELECT COUNT(*) … WHERE p, and the number of rows that an UPDATE … WHERE p changes.
  abbrev pub count_where : (A → Bool) → List A → ℕ
  count_where p [] = 0
  count_where p (x ∷ xs) = let rest = count_where p xs in if p x then suc rest else rest

  -- UPDATE … SET f WHERE p
  abbrev pub update_where : (A → Bool) → (A → A) → List A → List A
  update_where p f [] = []
  update_where p f (x ∷ xs) = (if p x then f x else x) ∷ update_where p f xs

  -- DELETE … WHERE p
  abbrev pub delete_where : (A → Bool) → List A → List A
  delete_where p [] = []
  delete_where p (x ∷ xs) = let rest = delete_where p xs in if p x then rest else x ∷ rest

module _ {ℓ} {A : Type ℓ} (p : A → Bool) where
  mem-select_cons :
      {a : A} (x : A) (xs rest : List A) (b : Bool)
      → p x ≡ b
      → (Memᴰ a rest → Memᴰ a xs × (p a ≡ true))
      → Memᴰ a (if b then x ∷ rest else rest)
      → Memᴰ a (x ∷ xs) × (p a ≡ true)
  mem-select_cons x xs rest true e ih (Memᴰ.head h) = (Memᴰ.head h, ap p h ∙ e)
  mem-select_cons x xs rest true e ih (Memᴰ.tail t) = (Memᴰ.tail (ih t).0, (ih t).1)
  mem-select_cons x xs rest false e ih t = (Memᴰ.tail (ih t).0, (ih t).1)

  pub mem-select_where :
      {a : A} (xs : List A) → Memᴰ a (select_where p xs) → Memᴰ a xs × (p a ≡ true)
  mem-select_where [] m = elim m [ ]
  mem-select_where (x ∷ xs) m =
      mem-select_cons x xs (select_where p xs) (p x) refl (mem-select_where xs) m

  pub select_where-mem : {a : A} (xs : List A) → Memᴰ a xs → p a ≡ true → Memᴰ a (select_where p xs)
  select_where-mem [] m h = elim m [ ]
  select_where-mem (x ∷ xs) (Memᴰ.head e) h = rw (ap p (sym e) ∙ h) (Memᴰ.head e)
  select_where-mem (x ∷ xs) (Memᴰ.tail m) h =
      let ih = select_where-mem xs m h in
      elim (Bool-cases (p x)) [ inl e ↦ rw e (Memᴰ.tail ih) | inr e ↦ rw e ih ]

  pub find_where-some : {a : A} (xs : List A) → find_where p xs ≡ some a → Memᴰ a xs × (p a ≡ true)
  find_where-some [] h = cc
  find_where-some {a} (x ∷ xs) h = elim (Bool-cases (p x)) [
    | inl e ↦ let q : a ≡ x = ground arith in (Memᴰ.head q, ap p q ∙ e)
    | inr e ↦ let ih = find_where-some xs (rw e at h) in (Memᴰ.tail ih.0, ih.1)
  ]

  pub find_where-none : {a : A} (xs : List A) → find_where p xs ≡ none → Memᴰ a xs → p a ≡ false
  find_where-none [] h m = elim m [ ]
  find_where-none (x ∷ xs) h (Memᴰ.head e) = rw e (ground arith)
  find_where-none (x ∷ xs) h (Memᴰ.tail m) = find_where-none xs (ground arith) m

  pub exists_where-false :
      {a : A} (xs : List A) → exists_where p xs ≡ false → Memᴰ a xs → p a ≡ false
  exists_where-false [] h m = elim m [ ]
  exists_where-false (x ∷ xs) h (Memᴰ.head e) = rw e (ground arith)
  exists_where-false (x ∷ xs) h (Memᴰ.tail m) = exists_where-false xs (ground arith) m

  pub exists_where-true : {a : A} (xs : List A) → Memᴰ a xs → p a ≡ true → exists_where p xs ≡ true
  exists_where-true [] m h = elim m [ ]
  exists_where-true (x ∷ xs) (Memᴰ.head e) h = rw (ap p (sym e) ∙ h) refl
  exists_where-true (x ∷ xs) (Memᴰ.tail m) h = ground (arith, exists_where-true xs m h)

  pub not_exists_where :
      (xs : List A) → ((a : A) → Memᴰ a xs → p a ≡ false) → exists_where p xs ≡ false
  not_exists_where [] h = refl
  not_exists_where (x ∷ xs) h =
      rw (h x (Memᴰ.head refl)) (not_exists_where xs (λ a m. h a (Memᴰ.tail m)))

  pub count_where-some : (xs : List A) → count_where p xs ≡ 1 → (a : A) × Memᴰ a xs × (p a ≡ true)
  count_where-some [] h = absurd (omega arith)
  count_where-some (x ∷ xs) h = elim (Bool-cases (p x)) [
    | inl e ↦ (x, Memᴰ.head refl, e)
    | inr e ↦ let (a, m, q) = count_where-some xs (ground arith) in (a, Memᴰ.tail m, q)
  ]

  pub mem-delete_where :
      {a : A} (xs : List A) → Memᴰ a xs → p a ≡ false → Memᴰ a (delete_where p xs)
  mem-delete_where [] m h = elim m [ ]
  mem-delete_where (x ∷ xs) (Memᴰ.head e) h = rw (ap p (sym e) ∙ h) (Memᴰ.head e)
  mem-delete_where (x ∷ xs) (Memᴰ.tail m) h =
      let ih = mem-delete_where xs m h in
      elim (Bool-cases (p x)) [ inl e ↦ rw e ih | inr e ↦ rw e (Memᴰ.tail ih) ]

  mem-kept_cons :
      {a : A} (x : A) (xs rest : List A) (b : Bool)
      → p x ≡ b
      → (Memᴰ a rest → Memᴰ a xs × (p a ≡ false))
      → Memᴰ a (if b then rest else x ∷ rest)
      → Memᴰ a (x ∷ xs) × (p a ≡ false)
  mem-kept_cons x xs rest false e ih (Memᴰ.head h) = (Memᴰ.head h, ap p h ∙ e)
  mem-kept_cons x xs rest false e ih (Memᴰ.tail t) = (Memᴰ.tail (ih t).0, (ih t).1)
  mem-kept_cons x xs rest true e ih t = (Memᴰ.tail (ih t).0, (ih t).1)

  pub delete_where-mem :
      {a : A} (xs : List A) → Memᴰ a (delete_where p xs) → Memᴰ a xs × (p a ≡ false)
  delete_where-mem [] m = elim m [ ]
  delete_where-mem (x ∷ xs) m =
      mem-kept_cons x xs (delete_where p xs) (p x) refl (delete_where-mem xs) m

module _ {ℓ} {A : Type ℓ} (p : A → Bool) (f : A → A) where
  -- The row that an UPDATE leaves in the place of `x`.
  abbrev pub updated : A → A
  updated x = if p x then f x else x

  pub update_where-mem :
      {b : A} (xs : List A) → Memᴰ b (update_where p f xs) → (a : A) × Memᴰ a xs × (b ≡ updated a)
  update_where-mem [] m = elim m [ ]
  update_where-mem (x ∷ xs) (Memᴰ.head e) = (x, Memᴰ.head refl, e)
  update_where-mem (x ∷ xs) (Memᴰ.tail m) =
      let (a, m', e) = update_where-mem xs m in (a, Memᴰ.tail m', e)

  pub mem-update_where : {a : A} (xs : List A) → Memᴰ a xs → Memᴰ (updated a) (update_where p f xs)
  mem-update_where [] m = elim m [ ]
  mem-update_where (x ∷ xs) (Memᴰ.head e) = Memᴰ.head (ap updated e)
  mem-update_where (x ∷ xs) (Memᴰ.tail m) = Memᴰ.tail (mem-update_where xs m)

  pub update_where-none :
      (xs : List A) → ((a : A) → Memᴰ a xs → p a ≡ false) → update_where p f xs ≡ xs
  update_where-none [] h = refl
  update_where-none (x ∷ xs) h =
      rw (h x (Memᴰ.head refl), update_where-none xs (λ a m. h a (Memᴰ.tail m))) refl
