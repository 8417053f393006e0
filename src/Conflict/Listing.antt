-- ===== src/Conflict/Listing.antt =====
-- What the listing of the conflicts contains.
use skill_hive.Prelude.{
  ◌≡◌, refl, sym, ap, ◌∙◌, true, false, inl, inr, List, [], ◌∷◌, Memᴰ, subst, if◌then◌else◌,
  Bool-cases, mem-append_cases, mem-append_left, mem-append_right,
}
use skill_hive.Store.{LocalSkill, LocalMutation, LocalStore, is_conflicted, ok}
use skill_hive.Conflict.Resolve.{
  ConflictRecord, is_chain_head, conflict_record, conflicts_of, conflict_rows, id_leb,
  insert_record, order_records, list_conflicts,
}
use skill_hive.Conflict.Oldest.{
  IsConflictOf, head-IsOldest, oldest-head, is_conflicted-state, shown,
}

mem-insert_record :
    (r x : ConflictRecord) (xs : List ConflictRecord)
    → Memᴰ r (x ∷ xs)
    → Memᴰ r (insert_record x xs)
mem-insert_record r x [] inside = inside
mem-insert_record r x (y ∷ ys) inside = elim (Bool-cases (id_leb x y)) [
  | inl before ↦ rw before inside
  | inr behind ↦ rw behind (elim inside [
    | Memᴰ.head e ↦ Memᴰ.tail (mem-insert_record r x ys (Memᴰ.head e))
    | Memᴰ.tail (Memᴰ.head e) ↦ Memᴰ.head e
    | Memᴰ.tail (Memᴰ.tail t) ↦ Memᴰ.tail (mem-insert_record r x ys (Memᴰ.tail t))
  ])
]

insert_record-mem :
    (r x : ConflictRecord) (xs : List ConflictRecord)
    → Memᴰ r (insert_record x xs)
    → Memᴰ r (x ∷ xs)
insert_record-mem r x [] inside = inside
insert_record-mem r x (y ∷ ys) inside = elim (Bool-cases (id_leb x y)) [
  | inl before ↦ rw before at inside
  | inr behind ↦ elim (later behind inside) [
    | Memᴰ.head e ↦ Memᴰ.tail (Memᴰ.head e)
    | Memᴰ.tail t ↦ elim (insert_record-mem r x ys t) [
      | Memᴰ.head e ↦ Memᴰ.head e
      | Memᴰ.tail t' ↦ Memᴰ.tail (Memᴰ.tail t')
    ]
  ]
]
  where
    later :
        id_leb x y ≡ false
        → Memᴰ r (if id_leb x y then x ∷ y ∷ ys else y ∷ insert_record x ys)
        → Memᴰ r (y ∷ insert_record x ys)
    later behind h = rw behind at h

module _ (r : ConflictRecord) where
  mem-order_records : (xs : List ConflictRecord) → Memᴰ r xs → Memᴰ r (order_records xs)
  unfolding order_records
  mem-order_records [] inside = inside
  mem-order_records (x ∷ xs) (Memᴰ.head e) = mem-insert_record r x (order_records xs) (Memᴰ.head e)
  mem-order_records (x ∷ xs) (Memᴰ.tail t) =
      mem-insert_record r x (order_records xs) (Memᴰ.tail (mem-order_records xs t))

  order_records-mem : (xs : List ConflictRecord) → Memᴰ r (order_records xs) → Memᴰ r xs
  unfolding order_records
  order_records-mem [] inside = inside
  order_records-mem (x ∷ xs) inside = elim (insert_record-mem r x (order_records xs) inside) [
    | Memᴰ.head e ↦ Memᴰ.head e
    | Memᴰ.tail t ↦ Memᴰ.tail (order_records-mem xs t)
  ]

module _ (k : LocalSkill) (table : List LocalMutation) where
  mem-conflicts_of :
      (m : LocalMutation) (ms : List LocalMutation)
      → Memᴰ m ms
      → is_chain_head k.id table m ≡ true
      → Memᴰ (conflict_record k m) (conflicts_of k table ms)
  mem-conflicts_of m [] inside heads = elim inside [ ]
  mem-conflicts_of m (x ∷ xs) (Memᴰ.head e) heads =
      let hx : is_chain_head k.id table x ≡ true = ap (is_chain_head k.id table) (sym e) ∙ heads in
      rw hx (Memᴰ.head (ap (conflict_record k) e))
  mem-conflicts_of m (x ∷ xs) (Memᴰ.tail t) heads =
      let ih = mem-conflicts_of m xs t heads in
      elim (Bool-cases (is_chain_head k.id table x)) [
        | inl hx ↦ rw hx (Memᴰ.tail ih)
        | inr hx ↦ rw hx ih
      ]

  conflicts_of-mem :
      (r : ConflictRecord) (ms : List LocalMutation)
      → Memᴰ r (conflicts_of k table ms)
      → (m : LocalMutation) × Memᴰ m ms
        × (is_chain_head k.id table m ≡ true)
        × (r ≡ conflict_record k m)
  conflicts_of-mem r [] inside = elim inside [ ]
  conflicts_of-mem r (x ∷ xs) inside = elim (Bool-cases (is_chain_head k.id table x)) [
    | inl hx ↦ elim (taken hx inside) [
      | Memᴰ.head e ↦ (x, Memᴰ.head refl, hx, e)
      | Memᴰ.tail t ↦ let (m, mm, heads, e) = conflicts_of-mem r xs t in (m, Memᴰ.tail mm, heads, e)
    ]
    | inr hx ↦
        let (m, mm, heads, e) = conflicts_of-mem r xs (rw hx at inside) in
        (m, Memᴰ.tail mm, heads, e)
  ]
    where
      taken :
          is_chain_head k.id table x ≡ true
          → Memᴰ r (
              if is_chain_head k.id table x
              then conflict_record k x ∷ conflicts_of k table xs
              else conflicts_of k table xs)
          → Memᴰ r (conflict_record k x ∷ conflicts_of k table xs)
      taken hx h = rw hx at h

module _ (table : List LocalMutation) where
  mem-conflict_rows :
      (k : LocalSkill) (m : LocalMutation) (skills : List LocalSkill)
      → Memᴰ k skills
      → Memᴰ m table
      → is_conflicted k.sync_state ≡ true
      → is_chain_head k.id table m ≡ true
      → Memᴰ (conflict_record k m) (conflict_rows table skills)
  mem-conflict_rows k m [] inside mm conflicted heads = elim inside [ ]
  mem-conflict_rows k m (x ∷ xs) (Memᴰ.head e) mm conflicted heads =
      let cx : is_conflicted x.sync_state ≡ true =
        ap (λ (y : LocalSkill). is_conflicted y.sync_state) (sym e) ∙ conflicted in
      rw cx (
        mem-append_left (conflicts_of x table table) (conflict_rows table xs) (
          subst (λ y. Memᴰ (conflict_record k m) (conflicts_of y table table)) e
            (mem-conflicts_of k table m table mm heads)))
  mem-conflict_rows k m (x ∷ xs) (Memᴰ.tail t) mm conflicted heads =
      let ih = mem-conflict_rows k m xs t mm conflicted heads in
      elim (Bool-cases (is_conflicted x.sync_state)) [
        | inl cx ↦ rw cx (mem-append_right (conflicts_of x table table) (conflict_rows table xs) ih)
        | inr cx ↦ rw cx ih
      ]

  conflict_rows-mem :
      (r : ConflictRecord) (skills : List LocalSkill)
      → Memᴰ r (conflict_rows table skills)
      → (k : LocalSkill) × (m : LocalMutation) × Memᴰ k skills
        × Memᴰ m table
        × (is_conflicted k.sync_state ≡ true)
        × (is_chain_head k.id table m ≡ true)
        × (r ≡ conflict_record k m)
  conflict_rows-mem r [] inside = elim inside [ ]
  conflict_rows-mem r (x ∷ xs) inside = elim (Bool-cases (is_conflicted x.sync_state)) [
    | inl cx ↦
        elim (mem-append_cases (conflicts_of x table table) (conflict_rows table xs)
          (rw cx at inside)) [
            | inl own ↦
                let (m, mm, heads, e) = conflicts_of-mem x table r table own in
                (x, m, Memᴰ.head refl, mm, cx, heads, e)
            | inr rest ↦
                let (k, m, mk, mm, ck, heads, e) = conflict_rows-mem r xs rest in
                (k, m, Memᴰ.tail mk, mm, ck, heads, e)
          ]
    | inr cx ↦
        let (k, m, mk, mm, ck, heads, e) = conflict_rows-mem r xs (rw cx at inside) in
        (k, m, Memᴰ.tail mk, mm, ck, heads, e)
  ]

-- The listing always succeeds, and holds a record exactly if it shows a skill in conflict and a
-- mutation of it in conflict with the least sequence number of those. A skill in conflict without a
-- mutation in conflict is not listed.
pub conflicts_are_listed :
    (s : LocalStore)
    → (records : List ConflictRecord) × (list_conflicts s ≡ ok records)
      × ((r : ConflictRecord) → Memᴰ r records → IsConflictOf s r)
      × ((r : ConflictRecord) → IsConflictOf s r → Memᴰ r records)
unfolding list_conflicts
conflicts_are_listed s =
    let rows = conflict_rows s.mutations s.skills in
    (
      order_records rows,
      refl,
      (λ r inside.
          let (k, m, mk, mm, conflicted, heads, e) =
            conflict_rows-mem s.mutations r s.skills (order_records-mem r rows inside) in
          (
            k,
            m,
            mk,
            mm,
            is_conflicted-state k.sync_state conflicted,
            head-IsOldest k.id s.mutations m heads,
            rw e ((refl, refl, refl, refl, refl, refl), (refl, refl, refl)),
          )),
      (λ r (k, m, mk, mm, conflicted, oldest, shows). mem-order_records r rows (
          subst (λ x. Memᴰ x rows) (sym (shown r k m shows))
            (mem-conflict_rows s.mutations k m s.skills mk mm (ap is_conflicted conflicted)
              (oldest-head k.id s.mutations m oldest)))),
    )
