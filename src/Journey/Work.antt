-- ===== src/Journey/Work.antt =====
-- No sequence of operations loses a mutation that is not acknowledged.
use skill_hive.Prelude.{
  ℕ, zero, suc, String, ◌≡◌, refl, sym, ap, ◌∙◌, Bool, true, false, ◌⊎◌, inl, inr, List, [], ◌∷◌,
  ◌++◌, map, Memᴰ, arith, Bool-cases, update_where, mem-append_left, mem-update_where, updated,
}
use skill_hive.Store.{LocalMutation, LocalStore, is_acked, ok, ok_parts}
use skill_hive.Store.Keys.{IsKeyed}
use skill_hive.Outbox.{
  claim_row, is_claimable, mark_in_flight, claim_each, claim_dispatchable_mutations, is_releasable,
  requeue, release_each, release_in_flight_mutations, recovered, recover_in_flight_mutations, flies,
}
use skill_hive.Outbox.Invariant.{IsOutbox}
use skill_hive.Outbox.Claims.{Claims, claim_each-cons}
use skill_hive.Outbox.Claimed.{claim_dispatchable-Claim, zero_claim}
use skill_hive.Outbox.Edits.{commit_effect}
use skill_hive.Outbox.Deletions.{queue_skill_delete-Deletion}
use skill_hive.Outbox.Inserted.{insert_mutation-eq}
use skill_hive.Outcome.Keeps.{work, outcome_keeps_mutations}
use skill_hive.Conflict.{is_conflict_of, superseded_mutation}
use skill_hive.Conflict.Keeps.{requeued_row, resolve_keep_local-KeptLocal, keep_local_tables}
use skill_hive.Conflict.Remote.{keep_remote_effect}
use skill_hive.Pull.Page.{pull_preserves_work}
use skill_hive.Scope.Trust.{scope-SameRows, switch-SameRows, logout-SameRows}
use skill_hive.Journey.Keys.{expire_due-keeps}
use skill_hive.Journey.Reach.{instance_id-SameRows, StoreStep, Reaches, IsSound, step-IsSound}

-- The mutation is in the outbox, with the same operation and payload.
abbrev pub IsKept : LocalMutation → LocalStore → Type 0
IsKept m t = (m' : LocalMutation) × Memᴰ m' t.mutations × (work m' ≡ work m)

mem-map-work :
    (m : LocalMutation) (table table' : List LocalMutation)
    → map work table' ≡ map work table
    → Memᴰ m table
    → (m' : LocalMutation) × Memᴰ m' table' × (work m' ≡ work m)
mem-map-work m [] table' e inside = elim inside [ ]
mem-map-work m (x ∷ xs) [] e inside = cc
mem-map-work m (x ∷ xs) (y ∷ ys) e (Memᴰ.head h) = (y, Memᴰ.head refl, ground arith)
mem-map-work m (x ∷ xs) (y ∷ ys) e (Memᴰ.tail h) =
    let (m', inside, same) = mem-map-work m xs ys (ground arith) h in (m', Memᴰ.tail inside, same)

module _ (p : LocalMutation → Bool) (f : LocalMutation → LocalMutation)
    (keeps : (x : LocalMutation) → work (f x) ≡ work x) where
  work-updated : (x : LocalMutation) → work (updated p f x) ≡ work x
  work-updated x = elim (Bool-cases (p x)) [ inl e ↦ rw e (keeps x) | inr e ↦ rw e refl ]

  update_where-work :
      (table : List LocalMutation) → map work (update_where p f table) ≡ map work table
  update_where-work [] = refl
  update_where-work (x ∷ xs) = rw (work-updated x, update_where-work xs) refl

claim_each-work :
    (now : ℕ) (candidates table : List LocalMutation) (claimed : Claims)
    → claim_each now candidates table ≡ ok claimed
    → map work claimed.1 ≡ map work table
claim_each-work now [] table claimed h =
    let e : table ≡ claimed.1 = unfold claim_each in ground arith in ap (map work) (sym e)
claim_each-work now (c ∷ cs) table claimed h =
    let (row, rest, reread, later, e) = claim_each-cons now c cs table claimed h in
    ap (λ (r : Claims). map work r.1) e
    ∙ claim_each-work now cs (claim_row now c.id table) rest later
    ∙ update_where-work (is_claimable c.id) (mark_in_flight now) (λ x. refl) table

release_each-work :
    (ids : List String) (table : List LocalMutation)
    → map work (release_each ids table).1 ≡ map work table
unfolding release_each
release_each-work [] table = refl
release_each-work (id ∷ ids) table =
    release_each-work ids (update_where (is_releasable id) requeue table)
    ∙ update_where-work (is_releasable id) requeue (λ x. refl) table

claim-work :
    (now limit : ℕ) (s : LocalStore) (rows : List LocalMutation) (t : LocalStore)
    → claim_dispatchable_mutations now limit s ≡ ok (rows, t)
    → map work t.mutations ≡ map work s.mutations
claim-work now zero s rows t h =
    ap (λ (r : LocalStore). map work r.mutations) (zero_claim now s rows t h).1
claim-work now (suc limit) s rows t h =
    let (candidates, claimed, read, done, er, et) = claim_dispatchable-Claim now limit s rows t h in
    ap (λ (r : LocalStore). map work r.mutations) et
    ∙ claim_each-work now candidates s.mutations claimed done

release-work :
    (ids : List String) (n : ℕ) (s t : LocalStore)
    → release_in_flight_mutations ids s ≡ ok (n, t)
    → map work t.mutations ≡ map work s.mutations
unfolding release_in_flight_mutations
release-work ids n s t h =
    ap (λ (r : LocalStore). map work r.mutations) (sym (ok_parts h).1)
    ∙ release_each-work ids s.mutations

recover-work :
    (n : ℕ) (s t : LocalStore)
    → recover_in_flight_mutations s ≡ ok (n, t)
    → map work t.mutations ≡ map work s.mutations
unfolding recover_in_flight_mutations
recover-work n s t h =
    ap (λ (r : LocalStore). map work r.mutations) (sym (ok_parts h).1)
    ∙ update_where-work flies recovered (λ x. refl) s.mutations

step_keeps :
    (s t : LocalStore) (m : LocalMutation)
    → StoreStep s t
    → IsSound s
    → Memᴰ m s.mutations
    → is_acked m.state ≡ false
    → IsKept m t
step_keeps s t m (StoreStep.edits id now edit row h) sound inside open_row = (
  m,
  rw ((commit_effect id now edit s row t h).0) (mem-append_left s.mutations (row ∷ []) inside),
  refl,
)
step_keeps s t m (StoreStep.deletes id now skill_id base row h) sound inside open_row =
    let (skill, found, er, inserted) = queue_skill_delete-Deletion id now skill_id base s row t h in
    let e = insert_mutation-eq row _ t inserted in
    let em : t.mutations ≡ s.mutations ++ (row ∷ []) = ap (λ (r : LocalStore). r.mutations) e in
    (m, rw em (mem-append_left s.mutations (row ∷ []) inside), refl)
step_keeps s t m (StoreStep.claims now limit rows h) sound inside open_row =
    mem-map-work m s.mutations t.mutations (claim-work now limit s rows t h) inside
step_keeps s t m (StoreStep.releases ids n h) sound inside open_row =
    mem-map-work m s.mutations t.mutations (release-work ids n s t h) inside
step_keeps s t m (StoreStep.restarts n h) sound inside open_row =
    mem-map-work m s.mutations t.mutations (recover-work n s t h) inside
step_keeps s t m (StoreStep.learns now outcome applied h) sound inside open_row =
    mem-map-work m s.mutations t.mutations (outcome_keeps_mutations now outcome s t applied h)
      inside
step_keeps s t m (StoreStep.keeps_local id now skill_id confirmed applied h) sound inside open_row =
    let (skill, head, agreed, read, known, em, es, esync) =
      keep_local_tables id now skill_id confirmed s t
        (resolve_keep_local-KeptLocal id now skill_id confirmed s applied t h) in
    let p = is_conflict_of skill_id in
    let row = requeued_row id now skill_id confirmed s skill head in
    (
      updated p superseded_mutation m,
      rw em (
          mem-append_left (update_where p superseded_mutation s.mutations) (row ∷ [])
            (mem-update_where p superseded_mutation s.mutations inside)),
      work-updated p superseded_mutation (λ x. refl) m,
    )
step_keeps s t m (StoreStep.keeps_remote skill_id confirmed applied h) sound inside open_row =
    let (agreed, adopted, em, none_left, others, esync) =
      keep_remote_effect skill_id confirmed s t applied h in
    let p = is_conflict_of skill_id in
    (
      updated p superseded_mutation m,
      rw em (mem-update_where p superseded_mutation s.mutations inside),
      work-updated p superseded_mutation (λ x. refl) m,
    )
step_keeps s t m (StoreStep.pulls parse temp_dir instant now page applied h) sound inside open_row =
    (
      m,
      (pull_preserves_work parse temp_dir instant now page s t applied h sound.0 sound.1).0 m inside
          open_row,
      refl,
    )
step_keeps s t m (StoreStep.expires now ids h) sound inside open_row =
    (m, rw ((expire_due-keeps now ids s t h sound.0).1) inside, refl)
step_keeps s t m (StoreStep.binds step) sound inside open_row =
    (m, rw ((scope-SameRows s t step).1) inside, refl)
step_keeps s t m (StoreStep.switches url h) sound inside open_row =
    (m, rw ((switch-SameRows url s t h).1) inside, refl)
step_keeps s t m (StoreStep.logs_out h) sound inside open_row =
    (m, rw ((logout-SameRows s t h).1) inside, refl)
step_keeps s t m (StoreStep.names_client drawn id h) sound inside open_row =
    (m, rw ((instance_id-SameRows drawn s id t h).1) inside, refl)

-- On the way from `s` to `t` the mutation was acknowledged.
abbrev pub WasAcked : LocalMutation → LocalStore → LocalStore → Type 0
WasAcked m s t =
    (u : LocalStore) × Reaches s u
    × Reaches u t
    × ((m' : LocalMutation) × Memᴰ m' u.mutations × (work m' ≡ work m) × (is_acked m'.state ≡ true))

-- No sequence of operations from a store with unique skill keys and a sound outbox loses local work: a mutation that is not acknowledged is still in the
-- outbox at the end, for the same skill, with the same place in the order, the same operation and the
-- same payload, or it was acknowledged at some point on the way.
pub no_work_is_lost :
    (s t : LocalStore) (m : LocalMutation)
    → Reaches s t
    → IsKeyed s.skills × IsOutbox s.mutations
    → Memᴰ m s.mutations
    → is_acked m.state ≡ false
    → IsKept m t ⊎ WasAcked m s t
no_work_is_lost s t m Reaches.done sound inside open_row = inl (m, inside, refl)
no_work_is_lost s t m (Reaches.after {t = u} step steps) sound inside open_row =
    let (m', inside', same) = step_keeps s u m step sound inside open_row in
    elim (Bool-cases (is_acked m'.state)) [
      | inl acked ↦ inr (u, Reaches.after step Reaches.done, steps, (m', inside', same, acked))
      | inr still ↦
          elim (no_work_is_lost u t m' steps (step-IsSound s u step sound) inside' still) [
            | inl (m'', inside'', same') ↦ inl (m'', inside'', same' ∙ same)
            | inr (v, before, later, (m'', inside'', same', acked)) ↦
                inr (v, Reaches.after step before, later, (m'', inside'', same' ∙ same, acked))
          ]
    ]
