-- ===== src/Store/Keys.antt =====
-- The primary key of `local_skills`, which every statement keeps.
use skill_hive.Prelude.{
  ◌≡◌, sym, ap, ◌∙◌, Bool, inl, inr, List, [], ◌∷◌, ◌++◌, Memᴰ, arith, update_where,
  update_where-mem, updated, mem-append_cases, mem-singleton,
}
use skill_hive.Store.Rows.{LocalSkill}

abbrev pub IsKeyed : List LocalSkill → Type 0
IsKeyed skills = (a b : LocalSkill) → Memᴰ a skills → Memᴰ b skills → a.id ≡ b.id → a ≡ b

pub update-IsKeyed :
    (p : LocalSkill → Bool) (f : LocalSkill → LocalSkill) (skills : List LocalSkill)
    → IsKeyed skills
    → ((k : LocalSkill) → (f k).id ≡ k.id)
    → IsKeyed (update_where p f skills)
update-IsKeyed p f skills keys keeps a b ma mb h =
    let (x, mx, ex) = update_where-mem p f skills ma in
    let (y, my, ey) = update_where-mem p f skills mb in
    let same : x.id ≡ y.id =
      sym (same_id x)
      ∙ ap (λ (r : LocalSkill). r.id) (sym ex)
      ∙ h
      ∙ ap (λ (r : LocalSkill). r.id) ey
      ∙ same_id y in
    ex ∙ ap (updated p f) (keys x y mx my same) ∙ sym ey
  where
    same_id : (x : LocalSkill) → (updated p f x).id ≡ x.id
    same_id x = ground (arith, keeps x)

pub append-IsKeyed :
    (row : LocalSkill) (skills : List LocalSkill)
    → IsKeyed skills
    → ((k : LocalSkill) → Memᴰ k skills → k.id ≡ row.id → ⊥)
    → IsKeyed (skills ++ (row ∷ []))
append-IsKeyed row skills keys apart a b ma mb h = elim (mem-append_cases skills (row ∷ []) ma) [
  | inl ia ↦ elim (mem-append_cases skills (row ∷ []) mb) [
    | inl ib ↦ keys a b ia ib h
    | inr ib ↦ absurd (apart a ia (h ∙ ap (λ (r : LocalSkill). r.id) (mem-singleton ib)))
  ]
  | inr ia ↦ elim (mem-append_cases skills (row ∷ []) mb) [
    | inl ib ↦ absurd (apart b ib (sym h ∙ ap (λ (r : LocalSkill). r.id) (mem-singleton ia)))
    | inr ib ↦ mem-singleton ia ∙ sym (mem-singleton ib)
  ]
]
