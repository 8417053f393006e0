-- ===== src/Tests/Journey.antt =====
-- An edit, its claim, and its acknowledgement.
use skill_hive.Prelude.{◌≡◌, ◌⊎◌, refl, true, none, [], ◌∷◌, Memᴰ, pos, ltb→lt}
use skill_hive.Store.{
  LocalMutation, LocalStore, CommitSkillEdit, MutationOperation, is_acked, ok, validate_non_empty,
}
use skill_hive.Outbox.{
  pending_mutation, edited_skill, commit_skill_edit, validate_edit, path_to_string,
  upsert_edited_skill, insert_mutation, next_local_sequence, next_sequence, mark_in_flight,
  claim_dispatchable_mutations, read_dispatchable, claim_each, read_mutation,
}
use skill_hive.Outcome.{acked_mutation}
use skill_hive.Store.Keys.{IsKeyed}
use skill_hive.Outbox.Invariant.{IsOutbox}
use skill_hive.Journey.Reach.{
  StoreStep, Reaches, reached_is_sound, reached_one_in_flight, reached_claims_in_order,
}
use skill_hive.Journey.Work.{IsKept, WasAcked, no_work_is_lost}
use skill_hive.Tests.Fixtures.{
  first_edit, first_row, fresh_store, fresh_keys, fresh-IsOutbox, edited_store, edit_run,
  flying_row, claimed_store, claim_run, acked_outcome, acked_applied, acked_store, ack_run, synced,
}

edit_steps : Reaches fresh_store edited_store
edit_steps = Reaches.after (StoreStep.edits "mut-1" 100 first_edit first_row edit_run) Reaches.done

claim_steps : Reaches fresh_store claimed_store
claim_steps =
    Reaches.after (StoreStep.edits "mut-1" 100 first_edit first_row edit_run)
      (Reaches.after (StoreStep.claims 110 10 (flying_row ∷ []) claim_run) Reaches.done)

push_steps : Reaches edited_store acked_store
push_steps =
    Reaches.after (StoreStep.claims 110 10 (flying_row ∷ []) claim_run)
      (Reaches.after (StoreStep.learns 200 acked_outcome acked_applied ack_run) Reaches.done)

reached_is_sound_example : IsKeyed claimed_store.skills × IsOutbox claimed_store.mutations
reached_is_sound_example =
    reached_is_sound fresh_store claimed_store claim_steps (fresh_keys, fresh-IsOutbox)

reached_one_in_flight_example : flying_row ≡ flying_row
reached_one_in_flight_example =
    reached_one_in_flight fresh_store claimed_store flying_row flying_row claim_steps
      (fresh_keys, fresh-IsOutbox) (Memᴰ.head refl) (Memᴰ.head refl) refl refl refl

-- A second edit after the acknowledgement, and its claim.
abbrev second_edit : CommitSkillEdit
second_edit = record first_edit { blob_hash = "hash-2"; operation = MutationOperation.update }

abbrev second_row : LocalMutation
second_row = pending_mutation "mut-2" "skill-1" 2 MutationOperation.update none "hash-2" 205

abbrev acked_row : LocalMutation
acked_row = acked_mutation acked_outcome (pos 1) flying_row

abbrev twice_store : LocalStore
twice_store = record acked_store {
  mutations = acked_row ∷ second_row ∷ [];
  skills = edited_skill second_edit "/work/notes" synced ∷ [];
}

second_run : commit_skill_edit "mut-2" 205 second_edit acked_store ≡ ok (second_row, twice_store)
unfolding commit_skill_edit validate_edit validate_non_empty path_to_string upsert_edited_skill
    insert_mutation next_local_sequence next_sequence
second_run = refl

twice_steps : Reaches fresh_store twice_store
twice_steps = Reaches.after (StoreStep.edits "mut-1" 100 first_edit first_row edit_run) (
    Reaches.after (StoreStep.claims 110 10 (flying_row ∷ []) claim_run) (
      Reaches.after (StoreStep.learns 200 acked_outcome acked_applied ack_run) (
        Reaches.after (StoreStep.edits "mut-2" 205 second_edit second_row second_run)
          Reaches.done)))

abbrev second_flying : LocalMutation
second_flying = mark_in_flight 210 second_row

abbrev twice_claimed : LocalStore
twice_claimed = record twice_store { mutations = acked_row ∷ second_flying ∷ [] }

second_claim_run :
    claim_dispatchable_mutations 210 10 twice_store ≡ ok (second_flying ∷ [], twice_claimed)
unfolding claim_dispatchable_mutations read_dispatchable claim_each read_mutation
second_claim_run = refl

reached_claims_in_order_example : is_acked acked_row.state ≡ true
reached_claims_in_order_example =
    reached_claims_in_order fresh_store twice_store twice_claimed 210 10 (second_flying ∷ [])
      second_flying acked_row twice_steps (fresh_keys, fresh-IsOutbox) second_claim_run
      (Memᴰ.head refl) (Memᴰ.head refl) refl (ltb→lt 1 2 refl)

no_work_is_lost_example : IsKept first_row acked_store ⊎ WasAcked first_row edited_store acked_store
no_work_is_lost_example =
    no_work_is_lost edited_store acked_store first_row push_steps
      (reached_is_sound fresh_store edited_store edit_steps (fresh_keys, fresh-IsOutbox))
      (Memᴰ.head refl) refl
