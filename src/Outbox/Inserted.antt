-- ===== src/Outbox/Inserted.antt =====
-- What an INSERT into `local_mutations` does under the constraints of the table.
use skill_hive.Prelude.{
  ℕ, ◌+◌, ◌^◌, ◌<◌, ltb, ◌&&◌, ◌⊎◌, String, Memᴰ, ◌≡◌, refl, ap, true, false, inl, inr, List, [],
  ◌∷◌, ◌++◌, arith, ◌==◌, eq_iff, Bool-cases, exists_where, exists_where-false, not_exists_where,
}
use skill_hive.Store.{LocalMutation, LocalStore, is_in_flight, ok}
use skill_hive.Outbox.Dispatch.{has_id}
use skill_hive.Outbox.Commit.{
  has_skill_id, is_negative?, next_local_sequence, next_sequence, max_sequence, clashes,
  insert_mutation,
}
use skill_hive.Outbox.Invariant.{IsOutbox, append-IsOutbox, max_sequence-le}

module _ (row : LocalMutation) (s t : LocalStore) (inserted : insert_mutation row s ≡ ok t) where
  pub insert_mutation-eq : t ≡ record s { mutations = s.mutations ++ (row ∷ []) }
  unfolding insert_mutation
  insert_mutation-eq = ground arith

  insert_mutation_fresh : exists_where (clashes row) s.mutations ≡ false
  unfolding insert_mutation
  insert_mutation_fresh = ground arith

  -- A mutation that takes the next sequence number of its skill keeps the invariant.
  pub insert_mutation-IsOutbox :
      IsOutbox s.mutations
      → is_in_flight row.state ≡ false
      → row.local_sequence ≡ next_sequence row.skill_id s.mutations
      → IsOutbox t.mutations
  unfolding next_sequence
  insert_mutation-IsOutbox box grounded next =
      let e : t.mutations ≡ s.mutations ++ (row ∷ []) =
        ap (λ (r : LocalStore). r.mutations) insert_mutation-eq in
      rw e (
        append-IsOutbox row s.mutations box
          (λ m h. exists_where-false (clashes row) s.mutations insert_mutation_fresh h) grounded
          (omega arith))

-- The next sequence number of a skill is taken by none of its mutations.
next_sequence_free :
    (row : LocalMutation) (table : List LocalMutation)
    → row.local_sequence ≡ next_sequence row.skill_id table
    → exists_where (has_id row.id) table ≡ false
    → exists_where (clashes row) table ≡ false
unfolding next_sequence
next_sequence_free row table next fresh = not_exists_where (clashes row) table λ m h.
    elim (Bool-cases (m.skill_id == row.skill_id)) [
      | inl same ↦
          let below =
            max_sequence-le row.skill_id m table h ((eq_iff m.skill_id row.skill_id).0 same) in
          ground (arith, exists_where-false (has_id row.id) table fresh h)
      | inr other ↦ ground (arith, exists_where-false (has_id row.id) table fresh h)
    ]

-- An INSERT with a fresh identifier, the next sequence number, a known skill and no negative
-- revision succeeds.
pub insert_mutation_total :
    (row : LocalMutation) (s : LocalStore)
    → exists_where (has_id row.id) s.mutations ≡ false
    → row.local_sequence ≡ next_sequence row.skill_id s.mutations
    → exists_where (has_skill_id row.skill_id) s.skills ≡ true
    → is_negative? row.base_revision ≡ false
    → insert_mutation row s ≡ ok (record s { mutations = s.mutations ++ (row ∷ []) })
unfolding insert_mutation
insert_mutation_total row s fresh next known natural =
    rw (next_sequence_free row s.mutations next fresh, known, natural) refl

-- A number that the read of the next sequence number gives.
pub next_local_sequence-eq :
    (skill_id : String) (table : List LocalMutation) (n : ℕ)
    → next_local_sequence skill_id table ≡ ok n
    → n ≡ next_sequence skill_id table
unfolding next_local_sequence
next_local_sequence-eq skill_id table n h = ground arith

pub next_local_sequence_fits :
    (skill_id : String) (table : List LocalMutation)
    → ltb (next_sequence skill_id table) (2 ^ 63) ≡ true
    → next_local_sequence skill_id table ≡ ok (next_sequence skill_id table)
unfolding next_local_sequence
next_local_sequence_fits skill_id table fits = rw fits refl

-- `n` is above the sequence numbers of the skill: by one above one of them, or the first.
abbrev pub IsNext : String → List LocalMutation → ℕ → Type 0
IsNext skill_id table n =
    ((m : LocalMutation) → Memᴰ m table → m.skill_id ≡ skill_id → m.local_sequence < n)
    × ((n ≡ 1)
        ⊎ ((m : LocalMutation) × Memᴰ m table
            × (m.skill_id ≡ skill_id)
            × (n ≡ m.local_sequence + 1)))

max_sequence-attained :
    (skill_id : String) (table : List LocalMutation)
    → (max_sequence skill_id table ≡ 0)
      ⊎ ((m : LocalMutation) × Memᴰ m table
          × (m.skill_id ≡ skill_id)
          × (max_sequence skill_id table ≡ m.local_sequence))
max_sequence-attained skill_id [] = inl refl
max_sequence-attained skill_id (x ∷ xs) =
    elim (Bool-cases (x.skill_id == skill_id && ltb (max_sequence skill_id xs) x.local_sequence)) [
      | inl above ↦
          inr (x, Memᴰ.head refl, (eq_iff x.skill_id skill_id).0 (ground arith), rw above refl)
      | inr below ↦ elim (max_sequence-attained skill_id xs) [
        | inl none_yet ↦ inl (rw below none_yet)
        | inr (m, inside, same, e) ↦ inr (m, Memᴰ.tail inside, same, rw below e)
      ]
    ]

pub next_sequence-IsNext :
    (skill_id : String) (table : List LocalMutation)
    → IsNext skill_id table (next_sequence skill_id table)
unfolding next_sequence
next_sequence-IsNext skill_id table = (
  (λ m inside same. let le = max_sequence-le skill_id m table inside same in omega arith),
  elim (max_sequence-attained skill_id table) [
    | inl first ↦ inl (omega arith)
    | inr (m, inside, same, e) ↦ inr (m, inside, same, omega arith)
  ],
)
