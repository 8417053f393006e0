-- ===== src/Pull/Preserves.antt =====
-- What a pulled change may do to the work of this machine.
use skill_hive.Prelude.{
  String, ◌≡◌, refl, sym, ap, ◌∙◌, Bool, true, false, inl, inr, none, List, [], ◌∷◌, ◌++◌, Memᴰ,
  arith, ◌==◌, eq_iff, Bool-cases, find_where, exists_where, exists_where-true, exists_where-false,
  update_where, mem-update_where, delete_where, delete_where-mem, mem-delete_where, find_where-none,
  mem-append_left,
}
use skill_hive.Store.{LocalSkill, LocalMutation, LocalStore, is_acked}
use skill_hive.Store.Keys.{IsKeyed, update-IsKeyed, append-IsKeyed}
use skill_hive.Outbox.{has_skill_id}
use skill_hive.Outbox.Invariant.{IsOutbox, delete-IsOutbox}
use skill_hive.Outcome.{is_unacked_of}
use skill_hive.Outcome.Transitions.{local_copy}
use skill_hive.Pull.Apply.{is_local_work, is_mutation_of}

-- A skill with local work whose mutations are not all acknowledged.
abbrev pub HasWork : LocalStore → LocalSkill → Type 0
HasWork s k =
    Memᴰ k s.skills
    × (is_local_work k.sync_state ≡ true)
    × (exists_where (is_unacked_of k.id) s.mutations ≡ true)

-- The row of `k` in `t` still holds its local work.
abbrev pub Holds : LocalStore → LocalSkill → Type 0
Holds t k =
    (k' : LocalSkill) × Memᴰ k' t.skills
    × (is_local_work k'.sync_state ≡ true)
    × (local_copy k' ≡ local_copy k)

pub record Preserves (s t : LocalStore) : Type 0 where
  pub keyed : IsKeyed t.skills
  pub boxed : IsOutbox t.mutations
  pub unacked :
      (m : LocalMutation) → Memᴰ m s.mutations → is_acked m.state ≡ false → Memᴰ m t.mutations
  pub held : (k : LocalSkill) → HasWork s k → Holds t k

pub Preserves-refl : (s : LocalStore) → IsKeyed s.skills → IsOutbox s.mutations → Preserves s s
Preserves-refl s keys box = record {
  keyed = keys;
  boxed = box;
  unacked = λ m inside open_row. inside;
  held = λ k work. (k, work.0, work.1, refl);
}

-- Some unacknowledged mutation of a skill.
unacked_row :
    (id : String) (table : List LocalMutation)
    → exists_where (is_unacked_of id) table ≡ true
    → (m : LocalMutation) × Memᴰ m table × (is_unacked_of id m ≡ true)
unacked_row id [] h = cc
unacked_row id (m ∷ ms) h = elim (Bool-cases (is_unacked_of id m)) [
  | inl hit ↦ (m, Memᴰ.head refl, hit)
  | inr miss ↦ let (x, mx, hx) = unacked_row id ms (rw miss at h) in (x, Memᴰ.tail mx, hx)
]

pub unacked_kept :
    (id : String) (s t : LocalStore)
    → ((m : LocalMutation) → Memᴰ m s.mutations → is_acked m.state ≡ false → Memᴰ m t.mutations)
    → exists_where (is_unacked_of id) s.mutations ≡ true
    → exists_where (is_unacked_of id) t.mutations ≡ true
unacked_kept id s t kept h =
    let (m, inside, hit) = unacked_row id s.mutations h in
    exists_where-true (is_unacked_of id) t.mutations (kept m inside (ground arith)) hit

pub Preserves-trans : (s t u : LocalStore) → Preserves s t → Preserves t u → Preserves s u
Preserves-trans s t u st tu = record {
  keyed = tu.keyed;
  boxed = tu.boxed;
  unacked = λ m inside open_row. tu.unacked m (st.unacked m inside open_row) open_row;
  held = λ k work.
      let (k', inside, dirty, copy) = st.held k work in
      let same : k'.id ≡ k.id = ap (λ c. c.id) copy in
      let unacked : exists_where (is_unacked_of k'.id) t.mutations ≡ true =
        rw same (unacked_kept k.id s t st.unacked work.2) in
      let (k'', inside', dirty', copy') = tu.held k' (inside, dirty, unacked) in
      (k'', inside', dirty', copy' ∙ copy);
}

-- An UPDATE of skills that keeps the keys and holds the local work.
pub update-Preserves :
    (p : LocalSkill → Bool) (f : LocalSkill → LocalSkill) (s t : LocalStore)
    → IsKeyed s.skills
    → IsOutbox s.mutations
    → t.skills ≡ update_where p f s.skills
    → t.mutations ≡ s.mutations
    → ((k : LocalSkill) → (f k).id ≡ k.id)
    → ((k : LocalSkill)
        → Memᴰ k s.skills
        → p k ≡ true
        → is_local_work k.sync_state ≡ true
        → (is_local_work (f k).sync_state ≡ true) × (local_copy (f k) ≡ local_copy k))
    → Preserves s t
update-Preserves p f s t keys box es em keeps holds = record {
  keyed = rw es (update-IsKeyed p f s.skills keys keeps);
  boxed = rw em box;
  unacked = λ m inside open_row. rw em inside;
  held = λ k work. elim (Bool-cases (p k)) [
    | inl hit ↦
        let (dirty, copy) = holds k work.0 hit work.1 in
        (f k, rw es (landed k work.0 hit), dirty, copy)
    | inr miss ↦ (k, rw es (passed k work.0 miss), work.1, refl)
  ];
}
  where
    landed :
        (k : LocalSkill) → Memᴰ k s.skills → p k ≡ true → Memᴰ (f k) (update_where p f s.skills)
    landed k inside hit = rw hit at (mem-update_where p f s.skills inside)

    passed : (k : LocalSkill) → Memᴰ k s.skills → p k ≡ false → Memᴰ k (update_where p f s.skills)
    passed k inside miss = rw miss at (mem-update_where p f s.skills inside)

-- A new row with a fresh key.
pub insert-Preserves :
    (row : LocalSkill) (s t : LocalStore)
    → IsKeyed s.skills
    → IsOutbox s.mutations
    → t.skills ≡ s.skills ++ (row ∷ [])
    → t.mutations ≡ s.mutations
    → find_where (has_skill_id row.id) s.skills ≡ none
    → Preserves s t
insert-Preserves row s t keys box es em fresh = record {
  keyed = rw es (append-IsKeyed row s.skills keys apart);
  boxed = rw em box;
  unacked = λ m inside open_row. rw em inside;
  held = λ k work. (k, rw es (mem-append_left s.skills (row ∷ []) work.0), work.1, refl);
}
  where
    apart : (a : LocalSkill) → Memᴰ a s.skills → a.id ≡ row.id → ⊥
    apart a ia e =
        ground (arith, find_where-none (has_skill_id row.id) s.skills fresh ia, eq_iff a.id row.id)

-- The deletion of a skill, with its mutations, where all of them are acknowledged.
pub remove-Preserves :
    (id : String) (s t : LocalStore)
    → IsKeyed s.skills
    → IsOutbox s.mutations
    → t.skills ≡ delete_where (has_skill_id id) s.skills
    → t.mutations ≡ delete_where (is_mutation_of id) s.mutations
    → exists_where (is_unacked_of id) s.mutations ≡ false
    → Preserves s t
remove-Preserves id s t keys box es em settled = record {
  keyed = rw es (λ a b ma mb.
      keys a b (delete_where-mem (has_skill_id id) s.skills ma).0
        (delete_where-mem (has_skill_id id) s.skills mb).0);
  boxed = rw em (delete-IsOutbox (is_mutation_of id) s.mutations box);
  unacked = λ m inside open_row.
      rw em (mem-delete_where (is_mutation_of id) s.mutations inside (elsewhere m inside open_row));
  held = λ k work. (
    k,
    rw es (mem-delete_where (has_skill_id id) s.skills work.0 (other k work.2)),
    work.1,
    refl,
  );
}
  where
    elsewhere :
        (m : LocalMutation)
        → Memᴰ m s.mutations
        → is_acked m.state ≡ false
        → is_mutation_of id m ≡ false
    elsewhere m inside open_row =
        ground (arith, exists_where-false (is_unacked_of id) s.mutations settled inside)

    clash : true ≡ false → ⊥
    clash h = cc

    other :
        (k : LocalSkill)
        → exists_where (is_unacked_of k.id) s.mutations ≡ true
        → has_skill_id id k ≡ false
    other k working = elim (Bool-cases (k.id == id)) [
      | inl same ↦
          let e : k.id ≡ id = (eq_iff k.id id).0 same in
          absurd (clash (sym (rw e at working) ∙ settled))
      | inr differ ↦ differ
    ]
