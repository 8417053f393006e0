-- ===== src/Outbox/Claims.antt =====
-- The rounds of `claim_dispatchable_mutations` keep the invariant of the outbox.
use skill_hive.Prelude.{
  ℕ, String, ◌≡◌, refl, sym, subst, true, false, List, [], ◌∷◌, Memᴰ, arith, eq_iff, exists_where,
  exists_where-false, find_where, find_where-some, update_where-mem, mem-update_where, updated,
  some, lt→ltb,
}
use skill_hive.Store.{LocalMutation, is_in_flight, Result, ok, err}
use skill_hive.Outbox.Dispatch.{
  is_dispatchable, blocks, is_claimable, mark_in_flight, claim_row, claim_rest, claim_each,
  read_dispatchable, read_mutation, has_id,
}
use skill_hive.Outbox.Dispatch.Order.{read_dispatchable-mem}
use skill_hive.Outbox.Invariant.{IsClear, IsOutbox, IsTame, update-IsOutbox}

-- What `NOT EXISTS` says of a row that is selected.
pub dispatchable-IsClear :
    (now : ℕ) (table : List LocalMutation) (m : LocalMutation)
    → is_dispatchable now table m ≡ true
    → IsClear table m
dispatchable-IsClear now table m h e me hs hq =
    let free : exists_where (blocks m) table ≡ false = ground arith in
    ground (
      arith,
      exists_where-false (blocks m) table free me,
      eq_iff e.skill_id m.skill_id,
      lt→ltb e.local_sequence m.local_sequence hq,
    )

module _ (now : ℕ) (id : String) (table : List LocalMutation) where
  -- Marking a mutation keeps the acknowledged ones, so what was clear stays clear.
  claim_row-IsClear : (m : LocalMutation) → IsClear table m → IsClear (claim_row now id table) m
  claim_row-IsClear m clear e me hs hq =
      let (x, mx, ex) = update_where-mem (is_claimable id) (mark_in_flight now) table me in
      ground (arith, clear x mx)

-- Every row that has the key of a candidate is clear.
abbrev pub IsReady : List LocalMutation → List LocalMutation → Type 0
IsReady table candidates =
    (c : LocalMutation)
    → Memᴰ c candidates
    → (x : LocalMutation) → Memᴰ x table
    → x.id ≡ c.id
    → IsClear table x

pub read-IsReady :
    (now limit : ℕ) (table candidates : List LocalMutation)
    → IsOutbox table
    → read_dispatchable now limit table ≡ ok candidates
    → IsReady table candidates
read-IsReady now limit table candidates box read c mc x mx same =
    let (inside, passes) = read_dispatchable-mem now limit table candidates read mc in
    subst (IsClear table) (sym (box.keyed x c mx inside same))
      (dispatchable-IsClear now table c passes)

pub claim_row-IsReady :
    (now : ℕ) (id : String) (table candidates : List LocalMutation)
    → IsReady table candidates
    → IsReady (claim_row now id table) candidates
claim_row-IsReady now id table candidates ready c mc x mx same =
    let (y, my, ey) = update_where-mem (is_claimable id) (mark_in_flight now) table mx in
    let clear : IsClear table y = ready c mc y my (ground arith) in
    let kept : IsClear (claim_row now id table) y = claim_row-IsClear now id table y clear in
    λ e me hs hq. kept e me (ground arith) (ground arith)

pub claim_row-IsTame :
    (now : ℕ) (c : LocalMutation) (table : List LocalMutation)
    → ((x : LocalMutation) → Memᴰ x table → x.id ≡ c.id → IsClear table x)
    → IsTame (is_claimable c.id) (mark_in_flight now) table
claim_row-IsTame now c table clear = record {
  keeps_id = λ x. refl;
  keeps_skill = λ x. refl;
  keeps_sequence = λ x. refl;
  keeps_acked = λ x mx h acked. ground arith;
  flies_clear = λ x mx h flying. clear x mx (ground (arith, eq_iff x.id c.id));
}

-- A row in flight is not claimed again, so a round leaves it in the table.
claim_row-keeps :
    (now : ℕ) (id : String) (table : List LocalMutation) {m : LocalMutation}
    → is_in_flight m.state ≡ true
    → Memᴰ m table
    → Memᴰ m (claim_row now id table)
claim_row-keeps now id table {m} flying h =
    let same : updated (is_claimable id) (mark_in_flight now) m ≡ m = ground arith in
    subst (λ r. Memᴰ r (claim_row now id table)) same
      (mem-update_where (is_claimable id) (mark_in_flight now) table h)

abbrev pub IsClaimed : List LocalMutation → LocalMutation → Type 0
IsClaimed table m = Memᴰ m table × (is_in_flight m.state ≡ true)

abbrev pub Claims : Type 0
Claims = List LocalMutation × List LocalMutation

-- A successful loop, taken apart at its first round.
abbrev pub ClaimCons : ℕ → LocalMutation → List LocalMutation → List LocalMutation → Claims → Type 0
ClaimCons now c cs table claimed =
    (row : LocalMutation) × (rest : Claims) × (read_mutation c.id (claim_row now c.id table)
      ≡ ok row)
    × (claim_each now cs (claim_row now c.id table) ≡ ok rest)
    × (claimed ≡ (row ∷ rest.0, rest.1))

claim_rest-ok :
    (r : Result LocalMutation) (later : Result Claims) (claimed : Claims)
    → claim_rest r later ≡ ok claimed
    → (row : LocalMutation) × (rest : Claims) × (r ≡ ok row)
      × (later ≡ ok rest)
      × (claimed ≡ (row ∷ rest.0, rest.1))
claim_rest-ok (ok row) (ok rest) claimed h = (row, rest, refl, refl, ground arith)
claim_rest-ok (ok row) (err e) claimed h = cc
claim_rest-ok (err e) later claimed h = cc

pub claim_each-cons :
    (now : ℕ) (c : LocalMutation) (cs table : List LocalMutation) (claimed : Claims)
    → claim_each now (c ∷ cs) table ≡ ok claimed
    → ClaimCons now c cs table claimed
unfolding claim_each
claim_each-cons now c cs table claimed h =
    claim_rest-ok (read_mutation c.id (claim_row now c.id table))
      (claim_each now cs (claim_row now c.id table)) claimed (ground arith)

pub claim_each-keeps :
    (now : ℕ) (candidates table : List LocalMutation) (claimed : Claims)
    → claim_each now candidates table ≡ ok claimed
    → (m : LocalMutation) → IsClaimed table m
    → Memᴰ m claimed.1
claim_each-keeps now [] table claimed h m (inside, flying) =
    let e : table ≡ claimed.1 = unfold claim_each in ground arith in subst (Memᴰ m) e inside
claim_each-keeps now (c ∷ cs) table claimed h m (inside, flying) =
    let (row, rest, reread, later, e) = claim_each-cons now c cs table claimed h in
    rw e (
      claim_each-keeps now cs (claim_row now c.id table) rest later m
        (claim_row-keeps now c.id table flying inside, flying))

pub read_mutation-mem :
    (id : String) (table : List LocalMutation) (row : LocalMutation)
    → read_mutation id table ≡ ok row
    → Memᴰ row table × (row.id ≡ id)
unfolding read_mutation
read_mutation-mem id table row h =
    let found : find_where (has_id id) table ≡ some row = ground arith in
    let (inside, same) = find_where-some (has_id id) table found in
    (inside, (eq_iff row.id id).0 same)

pub claim_each-IsOutbox :
    (now : ℕ) (candidates table : List LocalMutation) (claimed : Claims)
    → claim_each now candidates table ≡ ok claimed
    → IsReady table candidates
    → IsOutbox table
    → IsOutbox claimed.1
claim_each-IsOutbox now [] table claimed h ready box =
    let e : table ≡ claimed.1 = unfold claim_each in ground arith in subst IsOutbox e box
claim_each-IsOutbox now (c ∷ cs) table claimed h ready box =
    let (row, rest, reread, later, e) = claim_each-cons now c cs table claimed h in
    rw e (
      claim_each-IsOutbox now cs (claim_row now c.id table) rest later
        (claim_row-IsReady now c.id table cs (λ d md. ready d (Memᴰ.tail md)))
        (update-IsOutbox (is_claimable c.id) (mark_in_flight now) table
          (claim_row-IsTame now c table (ready c (Memᴰ.head refl))) box))
