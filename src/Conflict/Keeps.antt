-- ===== src/Conflict/Keeps.antt =====
-- What the resolutions of a conflict do to the outbox and to the skill.
use skill_hive.Prelude.{
  ℕ, String, ◌≡◌, refl, sym, ap, Bool, true, false, not, inl, inr, some, List, [], ◌∷◌, ◌++◌, Memᴰ,
  arith, eq_iff, Bool-cases, find_where, update_where, update_where-mem, ℤ,
}
use skill_hive.Store.{
  LocalSkill, LocalMutation, LocalStore, MutationOperation, is_conflict, is_conflicted, ok,
  >>=-eq-ok, >>-eq-ok, ok_parts, reject_if-passed,
}
use skill_hive.Outbox.{has_skill_id, pending_mutation, next_sequence, insert_mutation}
use skill_hive.Outbox.Invariant.{IsOutbox, IsTame, update-IsOutbox}
use skill_hive.Outbox.Inserted.{
  insert_mutation-eq, insert_mutation-IsOutbox, next_local_sequence-eq,
}
use skill_hive.Conflict.Resolve.{
  ResolutionApplied, is_conflict_of, read_skill_for_resolution, superseded_mutation,
  supersede_conflict_chain, known_head, requeued_skill, resolve_keep_local,
}

superseded-IsTame :
    (skill_id : String) (table : List LocalMutation)
    → IsTame (is_conflict_of skill_id) superseded_mutation table
superseded-IsTame skill_id table = record {
  keeps_id = λ x. refl;
  keeps_skill = λ x. refl;
  keeps_sequence = λ x. refl;
  keeps_acked = λ x m h acked. refl;
  flies_clear = λ x m h flying. cc;
}

pub supersede-IsOutbox :
    (skill_id : String) (s : LocalStore)
    → IsOutbox s.mutations
    → IsOutbox (supersede_conflict_chain skill_id s).mutations
unfolding supersede_conflict_chain
supersede-IsOutbox skill_id s box =
    update-IsOutbox (is_conflict_of skill_id) superseded_mutation s.mutations
      (superseded-IsTame skill_id s.mutations) box

-- After the chain is retired no mutation of the skill is in conflict.
pub superseded_none :
    (skill_id : String) (table : List LocalMutation) (m : LocalMutation)
    → Memᴰ m (update_where (is_conflict_of skill_id) superseded_mutation table)
    → m.skill_id ≡ skill_id
    → is_conflict m.state ≡ false
superseded_none skill_id table m inside same =
    let (x, mx, e) = update_where-mem (is_conflict_of skill_id) superseded_mutation table inside in
    elim (Bool-cases (is_conflict_of skill_id x)) [
      | inl hit ↦ ap (λ (r : LocalMutation). is_conflict r.state) (rw hit at e)
      | inr miss ↦ let ex : m ≡ x = rw miss at e in ground (arith, eq_iff x.skill_id skill_id)
    ]

pub read_conflicted :
    (skill_id : String) (s : LocalStore) (skill : LocalSkill)
    → read_skill_for_resolution skill_id s ≡ ok skill
    → (find_where (has_skill_id skill_id) s.skills ≡ some skill)
      × (is_conflicted skill.sync_state ≡ true)
unfolding read_skill_for_resolution
read_conflicted skill_id s skill h = (ground arith, ground arith)

module _ (mutation_id : String) (now : ℕ) (skill_id : String) (confirmed : Bool)
    (s : LocalStore) where
  -- The row that keep-local queues, for a skill and its known remote head.
  abbrev pub requeued_row : LocalSkill → ℤ → LocalMutation
  requeued_row skill head =
      pending_mutation mutation_id skill_id
        (next_sequence skill_id (supersede_conflict_chain skill_id s).mutations)
        MutationOperation.update (some head) skill.current_blob_hash now

  abbrev pub KeptLocal : LocalStore → Type 0
  KeptLocal t =
      (skill : LocalSkill) × (head : ℤ) × (written : LocalStore) × (confirmed ≡ true)
      × (read_skill_for_resolution skill_id s ≡ ok skill)
      × (known_head skill_id skill ≡ ok head)
      × (insert_mutation (requeued_row skill head) (supersede_conflict_chain skill_id s)
          ≡ ok written)
      × (t ≡ record written {
        skills = update_where (has_skill_id skill_id) (requeued_skill head) written.skills;
      })

  pub resolve_keep_local-KeptLocal :
      (applied : ResolutionApplied) (t : LocalStore)
      → resolve_keep_local mutation_id now skill_id confirmed s ≡ ok (applied, t)
      → KeptLocal t
  unfolding resolve_keep_local
  resolve_keep_local-KeptLocal applied t h =
      let passed = reject_if-passed (not confirmed) _ _ h in
      let h1 = >>-eq-ok _ _ h in
      let (skill, read, h2) = >>=-eq-ok _ _ h1 in
      let (head, known, h3) = >>=-eq-ok _ _ h2 in
      let (n, numbered, h3) = >>=-eq-ok _ _ h3 in
      let same =
        next_local_sequence-eq skill_id (supersede_conflict_chain skill_id s).mutations n
          numbered in
      let (written, inserted, h4) = >>=-eq-ok _ _ h3 in
      let (ea, et) = ok_parts h4 in
      rw (← same) (skill, head, written, ground arith, read, known, inserted, sym et)

  -- Keep-local keeps the invariant of the outbox.
  pub resolve_keep_local-IsOutbox :
      (applied : ResolutionApplied) (t : LocalStore)
      → resolve_keep_local mutation_id now skill_id confirmed s ≡ ok (applied, t)
      → IsOutbox s.mutations
      → IsOutbox t.mutations
  resolve_keep_local-IsOutbox applied t h box =
      let (skill, head, written, agreed, read, known, inserted, et) =
        resolve_keep_local-KeptLocal applied t h in
      rw et (
        insert_mutation-IsOutbox (requeued_row skill head) (supersede_conflict_chain skill_id s)
          written inserted (supersede-IsOutbox skill_id s box) refl refl)

  pub keep_local_tables :
      (t : LocalStore)
      → KeptLocal t
      → (skill : LocalSkill) × (head : ℤ) × (confirmed ≡ true)
        × (read_skill_for_resolution skill_id s ≡ ok skill)
        × (known_head skill_id skill ≡ ok head)
        × (t.mutations
            ≡ update_where (is_conflict_of skill_id) superseded_mutation s.mutations
              ++ (requeued_row skill head ∷ []))
        × (t.skills ≡ update_where (has_skill_id skill_id) (requeued_skill head) s.skills)
        × (t.sync ≡ s.sync)
  unfolding supersede_conflict_chain
  keep_local_tables t (skill, head, written, agreed, read, known, inserted, et) =
      let ew =
        insert_mutation-eq (requeued_row skill head) (supersede_conflict_chain skill_id s) written
          inserted in
      (skill, head, agreed, read, known, rw (et, ew) refl, rw (et, ew) refl, rw (et, ew) refl)
