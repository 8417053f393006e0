-- ===== src/Outbox/Claimed.antt =====
-- What a successful claim returns, and what it leaves in the outbox.
use skill_hive.Prelude.{
  ℕ, zero, suc, ◌<◌, ◌≡◌, refl, sym, ap, ◌∙◌, subst, ◌⊎◌, inl, inr, true, List, [], ◌∷◌, Memᴰ,
  arith, eq_iff, count_where, count_where-some, mem-update_where,
}
use skill_hive.Store.{LocalMutation, LocalStore, is_acked, is_in_flight, ok, ◌>>=◌, >>=-eq-ok}
use skill_hive.Outbox.Dispatch.{
  is_claimable, mark_in_flight, claim_row, claim_each, claim_dispatchable_mutations,
  read_dispatchable, read_mutation,
}
use skill_hive.Outbox.Invariant.{IsClear, IsOutbox, update-IsOutbox}
use skill_hive.Outbox.Claims.{
  Claims, IsClaimed, IsReady, read-IsReady, claim_row-IsReady, claim_row-IsTame, claim_each-cons,
  claim_each-keeps, claim_each-IsOutbox, read_mutation-mem,
}

count_claimed :
    (now : ℕ) (c : LocalMutation) (cs table : List LocalMutation) (claimed : Claims)
    → claim_each now (c ∷ cs) table ≡ ok claimed
    → count_where (is_claimable c.id) table ≡ 1
unfolding claim_each
count_claimed now c cs table claimed h = ground arith

-- The row that a round reads again is the one that it marked.
IsClaimed-row-flies :
    (now : ℕ) (c row : LocalMutation) (table : List LocalMutation)
    → IsOutbox (claim_row now c.id table)
    → count_where (is_claimable c.id) table ≡ 1
    → read_mutation c.id (claim_row now c.id table) ≡ ok row
    → IsClaimed (claim_row now c.id table) row
IsClaimed-row-flies now c row table box one reread =
    let (inside, same) = read_mutation-mem c.id (claim_row now c.id table) row reread in
    let (x, mx, hx) = count_where-some (is_claimable c.id) table one in
    let marked : Memᴰ (mark_in_flight now x) (claim_row now c.id table) =
      subst (λ r. Memᴰ r (claim_row now c.id table)) (ground arith)
        (mem-update_where (is_claimable c.id) (mark_in_flight now) table mx) in
    let e : row ≡ mark_in_flight now x =
      box.keyed row (mark_in_flight now x) inside marked (ground (arith, eq_iff x.id c.id)) in
    (inside, ap (λ (r : LocalMutation). is_in_flight r.state) e)

claim_each-IsClaimed :
    (now : ℕ) (candidates table : List LocalMutation) (claimed : Claims)
    → claim_each now candidates table ≡ ok claimed
    → IsReady table candidates
    → IsOutbox table
    → (m : LocalMutation) → Memᴰ m claimed.0
    → IsClaimed claimed.1 m
claim_each-IsClaimed now [] table claimed h ready box m mm =
    let e : [] ≡ claimed.0 = unfold claim_each in ground arith in
    elim (subst (Memᴰ m) (sym e) mm) [ ]
claim_each-IsClaimed now (c ∷ cs) table claimed h ready box m mm =
    let (row, rest, reread, later, e) = claim_each-cons now c cs table claimed h in
    let ready' = claim_row-IsReady now c.id table cs (λ d md. ready d (Memᴰ.tail md)) in
    let box' =
      update-IsOutbox (is_claimable c.id) (mark_in_flight now) table
        (claim_row-IsTame now c table (ready c (Memᴰ.head refl))) box in
    let first =
      IsClaimed-row-flies now c row table box' (count_claimed now c cs table claimed h) reread in
    let m' : Memᴰ m (row ∷ rest.0) = subst (λ (r : Claims). Memᴰ m r.0) e mm in
    rw e (elim m' [
      | Memᴰ.head q ↦
          let flying : is_in_flight m.state ≡ true =
            ap (λ (r : LocalMutation). is_in_flight r.state) q ∙ first.1 in
          (
            claim_each-keeps now cs (claim_row now c.id table) rest later m
                (subst (λ r. Memᴰ r (claim_row now c.id table)) (sym q) first.0, flying),
            flying,
          )
      | Memᴰ.tail t ↦
          claim_each-IsClaimed now cs (claim_row now c.id table) rest later ready' box' m t
    ])

module _ (now limit : ℕ) (s : LocalStore) (rows : List LocalMutation) (t : LocalStore) where
  -- A successful claim of a batch, taken apart.
  abbrev pub Claim : Type 0
  Claim =
      (candidates : List LocalMutation) × (claimed : Claims) × (read_dispatchable now limit
          s.mutations
        ≡ ok candidates)
      × (claim_each now candidates s.mutations ≡ ok claimed)
      × (rows ≡ claimed.0)
      × (t ≡ record s { mutations = claimed.1 })

pub claim_dispatchable-Claim :
    (now limit : ℕ) (s : LocalStore) (rows : List LocalMutation) (t : LocalStore)
    → claim_dispatchable_mutations now (suc limit) s ≡ ok (rows, t)
    → Claim now (suc limit) s rows t
unfolding claim_dispatchable_mutations
claim_dispatchable-Claim now limit s rows t h =
    let (candidates, read, h') =
      >>=-eq-ok (read_dispatchable now (suc limit) s.mutations)
        (λ candidates. claim_each now candidates s.mutations >>= λ claimed.
          ok (claimed.0, record s { mutations = claimed.1 }))
        h in
    let (claimed, done, h'') =
      >>=-eq-ok (claim_each now candidates s.mutations)
        (λ claimed. ok (claimed.0, record s { mutations = claimed.1 })) h' in
    (candidates, claimed, read, done, ground arith, ground arith)

pub zero_claim :
    (now : ℕ) (s : LocalStore) (rows : List LocalMutation) (t : LocalStore)
    → claim_dispatchable_mutations now zero s ≡ ok (rows, t)
    → (rows ≡ []) × (t ≡ s)
unfolding claim_dispatchable_mutations
zero_claim now s rows t h = ground arith

-- A claim keeps the invariant of the outbox.
pub claim_dispatchable-IsOutbox :
    (now limit : ℕ) (s : LocalStore) (rows : List LocalMutation) (t : LocalStore)
    → claim_dispatchable_mutations now limit s ≡ ok (rows, t)
    → IsOutbox s.mutations
    → IsOutbox t.mutations
claim_dispatchable-IsOutbox now zero s rows t h box =
    let (none_claimed, same) = zero_claim now s rows t h in rw same box
claim_dispatchable-IsOutbox now (suc limit) s rows t h box =
    let (candidates, claimed, read, done, er, et) = claim_dispatchable-Claim now limit s rows t h in
    rw et (
      claim_each-IsOutbox now candidates s.mutations claimed done
        (read-IsReady now (suc limit) s.mutations candidates box read) box)

IsClaimed-IsClaimed :
    (now limit : ℕ) (s : LocalStore) (rows : List LocalMutation) (t : LocalStore)
    → claim_dispatchable_mutations now limit s ≡ ok (rows, t)
    → IsOutbox s.mutations
    → (m : LocalMutation) → Memᴰ m rows
    → IsClaimed t.mutations m
IsClaimed-IsClaimed now zero s rows t h box m mm =
    let (none_claimed, same) = zero_claim now s rows t h in
    elim (subst (Memᴰ m) none_claimed mm) [ ]
IsClaimed-IsClaimed now (suc limit) s rows t h box m mm =
    let (candidates, claimed, read, done, er, et) = claim_dispatchable-Claim now limit s rows t h in
    rw et (
      claim_each-IsClaimed now candidates s.mutations claimed done
        (read-IsReady now (suc limit) s.mutations candidates box read) box m (subst (Memᴰ m) er mm))

-- From a store whose outbox satisfies the invariant, every mutation that a claim returns is in
-- the outbox that it leaves, in flight, and every earlier mutation of its skill is acknowledged
-- there.
pub claim_causal :
    (now limit : ℕ) (s : LocalStore) (rows : List LocalMutation) (t : LocalStore)
    → claim_dispatchable_mutations now limit s ≡ ok (rows, t)
    → IsOutbox s.mutations
    → (m : LocalMutation) → Memᴰ m rows
    → Memᴰ m t.mutations × (is_in_flight m.state ≡ true) × IsClear t.mutations m
claim_causal now limit s rows t h box m mm =
    let (inside, flying) = IsClaimed-IsClaimed now limit s rows t h box m mm in
    let box' = claim_dispatchable-IsOutbox now limit s rows t h box in
    (inside, flying, box'.causal m inside flying)

-- Two mutations in flight for one skill are one mutation.
pub in_flight_unique :
    (table : List LocalMutation) (m n : LocalMutation)
    → IsOutbox table
    → Memᴰ m table
    → Memᴰ n table
    → is_in_flight m.state ≡ true
    → is_in_flight n.state ≡ true
    → m.skill_id ≡ n.skill_id
    → m ≡ n
in_flight_unique table m n box im in' fm fn same =
    elim (trichotomy m.local_sequence n.local_sequence) [
      | inl less ↦ absurd (grounded m fm (box.causal n in' fn m im same less))
      | inr rest ↦ elim rest [
        | inl more ↦ absurd (grounded n fn (box.causal m im fm n in' (sym same) more))
        | inr level ↦ box.sequenced m n im in' same level
      ]
    ]
  where
    grounded : (r : LocalMutation) → is_in_flight r.state ≡ true → is_acked r.state ≡ true → ⊥
    grounded r f a = ground arith

    trichotomy : (a b : ℕ) → (a < b) ⊎ ((b < a) ⊎ (a ≡ b))
    trichotomy a b = grind arith

-- From a store whose outbox satisfies the invariant, a claim returns at most one mutation for each
-- skill: two that it returns for one skill are the same mutation.
pub claim_one_per_skill :
    (now limit : ℕ) (s : LocalStore) (rows : List LocalMutation) (t : LocalStore)
    → claim_dispatchable_mutations now limit s ≡ ok (rows, t)
    → IsOutbox s.mutations
    → (m n : LocalMutation) → Memᴰ m rows
    → Memᴰ n rows
    → m.skill_id ≡ n.skill_id
    → m ≡ n
claim_one_per_skill now limit s rows t h box m n mm mn same =
    let (im, fm) = IsClaimed-IsClaimed now limit s rows t h box m mm in
    let (in', fn) = IsClaimed-IsClaimed now limit s rows t h box n mn in
    in_flight_unique t.mutations m n (claim_dispatchable-IsOutbox now limit s rows t h box) im in'
      fm fn same
