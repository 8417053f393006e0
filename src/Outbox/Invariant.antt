-- ===== src/Outbox/Invariant.antt =====
-- The invariant of the outbox: keys are unique, and a mutation in flight has every earlier
-- mutation of its skill acknowledged. The ways in which statements keep it.
use skill_hive.Prelude.{
  ◌≤◌, ◌<◌, String, ◌≡◌, sym, ap, ◌∙◌, subst₂, Bool, true, false, ◌⊎◌, inl, inr, List, [], ◌∷◌,
  ◌++◌, Memᴰ, arith, eq_iff, Bool-cases, mem-append_cases, mem-singleton, update_where,
  update_where-mem, updated, delete_where, delete_where-mem,
}
use skill_hive.Store.{LocalMutation, is_acked, is_in_flight}
use skill_hive.Outbox.Commit.{max_sequence, clashes}

-- Every earlier mutation of the skill of `m` is acknowledged.
abbrev pub IsClear : List LocalMutation → LocalMutation → Type 0
IsClear table m =
    (e : LocalMutation)
    → Memᴰ e table
    → e.skill_id ≡ m.skill_id
    → e.local_sequence < m.local_sequence
    → is_acked e.state ≡ true

pub record IsOutbox (table : List LocalMutation) : Type 0 where
  pub keyed : (a b : LocalMutation) → Memᴰ a table → Memᴰ b table → a.id ≡ b.id → a ≡ b
  pub sequenced :
      (a b : LocalMutation)
      → Memᴰ a table
      → Memᴰ b table
      → a.skill_id ≡ b.skill_id
      → a.local_sequence ≡ b.local_sequence
      → a ≡ b
  pub causal : (m : LocalMutation) → Memᴰ m table → is_in_flight m.state ≡ true → IsClear table m

-- An UPDATE that keeps the keys, acknowledges for good, and puts a mutation in flight only where
-- every earlier one is acknowledged.
pub record IsTame (p : LocalMutation → Bool) (f : LocalMutation → LocalMutation)
    (table : List LocalMutation) : Type 0 where
  pub keeps_id : (x : LocalMutation) → (f x).id ≡ x.id
  pub keeps_skill : (x : LocalMutation) → (f x).skill_id ≡ x.skill_id
  pub keeps_sequence : (x : LocalMutation) → (f x).local_sequence ≡ x.local_sequence
  pub keeps_acked :
      (x : LocalMutation)
      → Memᴰ x table
      → p x ≡ true
      → is_acked x.state ≡ true
      → is_acked (f x).state ≡ true
  pub flies_clear :
      (x : LocalMutation)
      → Memᴰ x table
      → p x ≡ true
      → is_in_flight (f x).state ≡ true
      → IsClear table x

module _ (p : LocalMutation → Bool) (f : LocalMutation → LocalMutation) (table : List LocalMutation)
    (tame : IsTame p f table) where
  updated-id : (x : LocalMutation) → (updated p f x).id ≡ x.id
  updated-id x = ground (arith, tame.keeps_id x)

  updated-skill : (x : LocalMutation) → (updated p f x).skill_id ≡ x.skill_id
  updated-skill x = ground (arith, tame.keeps_skill x)

  updated-sequence : (x : LocalMutation) → (updated p f x).local_sequence ≡ x.local_sequence
  updated-sequence x = ground (arith, tame.keeps_sequence x)

  updated-acked :
      (x : LocalMutation)
      → Memᴰ x table
      → is_acked x.state ≡ true
      → is_acked (updated p f x).state ≡ true
  updated-acked x m h = elim (Bool-cases (p x)) [
    | inl e ↦ rw e (tame.keeps_acked x m e h)
    | inr e ↦ rw e h
  ]

  updated-IsClear :
      (x : LocalMutation)
      → Memᴰ x table
      → IsOutbox table
      → is_in_flight (updated p f x).state ≡ true
      → IsClear table x
  updated-IsClear x m box h = elim (Bool-cases (p x)) [
    | inl e ↦ tame.flies_clear x m e (ground arith)
    | inr e ↦ box.causal x m (ground arith)
  ]

  pub update-IsOutbox : IsOutbox table → IsOutbox (update_where p f table)
  update-IsOutbox box = record {
    keyed = λ a b ma mb h.
        let (x, mx, ex) = update_where-mem p f table ma in
        let (y, my, ey) = update_where-mem p f table mb in
        ex ∙ ap (updated p f) (box.keyed x y mx my (cc (updated-id x, updated-id y))) ∙ sym ey;
    sequenced = λ a b ma mb hs hq.
        let (x, mx, ex) = update_where-mem p f table ma in
        let (y, my, ey) = update_where-mem p f table mb in
        ex
        ∙ ap (updated p f) (
            box.sequenced x y mx my (cc (updated-skill x, updated-skill y))
              (cc (updated-sequence x, updated-sequence y)))
        ∙ sym ey;
    causal = λ a ma flying e me hs hq.
        let (x, mx, ex) = update_where-mem p f table ma in
        let (y, my, ey) = update_where-mem p f table me in
        rw ey (
          updated-acked y my (
            updated-IsClear x mx box (rw ex at flying) y my (cc (updated-skill x, updated-skill y))
              (subst₂ ◌<◌ (cc (updated-sequence y)) (cc (updated-sequence x)) hq)));
  }

-- DELETE keeps it.
pub delete-IsOutbox :
    (p : LocalMutation → Bool) (table : List LocalMutation)
    → IsOutbox table
    → IsOutbox (delete_where p table)
delete-IsOutbox p table box = record {
  keyed = λ a b ma mb. box.keyed a b (kept ma) (kept mb);
  sequenced = λ a b ma mb. box.sequenced a b (kept ma) (kept mb);
  causal = λ a ma flying e me. box.causal a (kept ma) flying e (kept me);
}
  where
    kept : {m : LocalMutation} → Memᴰ m (delete_where p table) → Memᴰ m table
    kept h = (delete_where-mem p table h).0

pub max_sequence-le :
    (skill_id : String) (m : LocalMutation) (table : List LocalMutation)
    → Memᴰ m table
    → m.skill_id ≡ skill_id
    → m.local_sequence ≤ max_sequence skill_id table
max_sequence-le skill_id m [] h e = elim h [ ]
max_sequence-le skill_id m (x ∷ xs) (Memᴰ.head q) e =
    let g : x.skill_id ≡ skill_id = ap (λ (r : LocalMutation). r.skill_id) (sym q) ∙ e in
    let n : m.local_sequence ≡ x.local_sequence = ap (λ (r : LocalMutation). r.local_sequence) q in
    ground (arith, eq_iff x.skill_id skill_id)
max_sequence-le skill_id m (x ∷ xs) (Memᴰ.tail t) e =
    ground (arith, max_sequence-le skill_id m xs t e)

module _ (row : LocalMutation) (table : List LocalMutation) where
  -- A new mutation with fresh keys, behind all others of its skill and not in flight.
  pub append-IsOutbox :
      IsOutbox table
      → ((m : LocalMutation) → Memᴰ m table → clashes row m ≡ false)
      → is_in_flight row.state ≡ false
      → max_sequence row.skill_id table < row.local_sequence
      → IsOutbox (table ++ (row ∷ []))
  append-IsOutbox box fresh grounded last = record {
    keyed = λ a b ma mb h. elim (cases ma) [
      | inl ia ↦ elim (cases mb) [
        | inl ib ↦ box.keyed a b ia ib h
        | inr eb ↦ absurd (fresh_id a ia (h ∙ ap (λ (r : LocalMutation). r.id) eb))
      ]
      | inr ea ↦ elim (cases mb) [
        | inl ib ↦ absurd (fresh_id b ib (sym h ∙ ap (λ (r : LocalMutation). r.id) ea))
        | inr eb ↦ ea ∙ sym eb
      ]
    ];
    sequenced = λ a b ma mb hs hq. elim (cases ma) [
      | inl ia ↦ elim (cases mb) [
        | inl ib ↦ box.sequenced a b ia ib hs hq
        | inr eb ↦ absurd (behind a b ia eb hs (omega arith))
      ]
      | inr ea ↦ elim (cases mb) [
        | inl ib ↦ absurd (behind b a ib ea (sym hs) (omega arith))
        | inr eb ↦ ea ∙ sym eb
      ]
    ];
    causal = λ a ma flying e me hs hq. elim (cases ma) [
      | inl ia ↦ elim (cases me) [
        | inl ie ↦ box.causal a ia flying e ie hs hq
        | inr ee ↦ absurd (behind a e ia ee (sym hs) (omega arith))
      ]
      | inr ea ↦ absurd (not_flying a ea flying)
    ];
  }
    where
      cases : {m : LocalMutation} → Memᴰ m (table ++ (row ∷ [])) → Memᴰ m table ⊎ (m ≡ row)
      cases h = elim (mem-append_cases table (row ∷ []) h) [
        | inl l ↦ inl l
        | inr r ↦ inr (mem-singleton r)
      ]

      fresh_id : (m : LocalMutation) → Memᴰ m table → m.id ≡ row.id → ⊥
      fresh_id m h e = ground (arith, fresh m h, eq_iff m.id row.id)

      behind :
          (m r : LocalMutation)
          → Memᴰ m table
          → r ≡ row
          → m.skill_id ≡ r.skill_id
          → r.local_sequence ≤ m.local_sequence
          → ⊥
      behind m r h e s q =
          let es : m.skill_id ≡ row.skill_id = s ∙ ap (λ (r : LocalMutation). r.skill_id) e in
          let eq : r.local_sequence ≡ row.local_sequence =
            ap (λ (r : LocalMutation). r.local_sequence) e in
          omega (arith, max_sequence-le row.skill_id m table h es)

      not_flying : (m : LocalMutation) → m ≡ row → is_in_flight m.state ≡ true → ⊥
      not_flying m e h = cc (ap (λ (r : LocalMutation). is_in_flight r.state) e)
