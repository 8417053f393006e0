-- ===== src/Journey/Reach.antt =====
-- Sequences of operations on one store, and what holds wherever they lead.
use skill_hive.Prelude.{
  ℕ, ◌<◌, String, ◌≡◌, Bool, true, ◌⊎◌, Option, List, Memᴰ, ℤ, ap, sym, Option-cases, inl, inr,
}
use skill_hive.Store.{
  CommitSkillEdit, LocalMutation, LocalStore, is_in_flight, is_acked, ok, ok_parts,
}
use skill_hive.Store.Keys.{IsKeyed}
use skill_hive.Outbox.{
  commit_skill_edit, queue_skill_delete, claim_dispatchable_mutations, release_in_flight_mutations,
  recover_in_flight_mutations,
}
use skill_hive.Outbox.Invariant.{IsOutbox}
use skill_hive.Outbox.Edits.{commit-IsOutbox}
use skill_hive.Outbox.Deletions.{queue_delete-IsOutbox}
use skill_hive.Outbox.Claimed.{claim_dispatchable-IsOutbox, claim_causal, in_flight_unique}
use skill_hive.Outbox.Recovery.{release-IsOutbox, recover-IsOutbox}
use skill_hive.Outcome.{MutationOutcome, OutcomeApplied, apply_mutation_outcome}
use skill_hive.Outcome.Keeps.{outcome-IsOutbox}
use skill_hive.Conflict.{ResolutionApplied, resolve_keep_local, resolve_keep_remote}
use skill_hive.Conflict.Keeps.{resolve_keep_local-IsOutbox}
use skill_hive.Conflict.Remote.{resolve_keep_remote-IsOutbox}
use skill_hive.Scope.{
  prepare_server_switch, invalidate_authenticated_scope, ensure_client_instance_id,
}
use skill_hive.Scope.Trust.{ScopeStep, scope-SameRows, switch-SameRows, logout-SameRows}
use skill_hive.Entitlement.{expire_due_entitlements}
use skill_hive.Pull.{ChangesPage, PageApplied, apply_changes_page}
use skill_hive.Pull.Page.{pull_preserves_work}
use skill_hive.Journey.Keys.{
  commit-IsKeyed, queue_delete-IsKeyed, claim-IsKeyed, release-IsKeyed, recover-IsKeyed,
  apply_mutation_outcome-IsKeyed, keep_local-IsKeyed, keep_remote-IsKeyed, expire_due-keeps,
}

-- One operation that succeeds; one that fails leaves the store as it is.
pub data StoreStep : LocalStore → LocalStore → Type 0 where
  edits :
      {s t : LocalStore} (mutation_id : String) (now : ℕ) (edit : CommitSkillEdit)
      (row : LocalMutation)
      → commit_skill_edit mutation_id now edit s ≡ ok (row, t)
      → StoreStep s t
  deletes :
      {s t : LocalStore} (mutation_id : String) (now : ℕ) (skill_id : String) (base : Option ℤ)
      (row : LocalMutation)
      → queue_skill_delete mutation_id now skill_id base s ≡ ok (row, t)
      → StoreStep s t
  claims :
      {s t : LocalStore} (now limit : ℕ) (rows : List LocalMutation)
      → claim_dispatchable_mutations now limit s ≡ ok (rows, t)
      → StoreStep s t
  releases :
      {s t : LocalStore} (ids : List String) (n : ℕ)
      → release_in_flight_mutations ids s ≡ ok (n, t)
      → StoreStep s t
  restarts : {s t : LocalStore} (n : ℕ) → recover_in_flight_mutations s ≡ ok (n, t) → StoreStep s t
  learns :
      {s t : LocalStore} (now : ℕ) (outcome : MutationOutcome) (applied : OutcomeApplied)
      → apply_mutation_outcome now outcome s ≡ ok (applied, t)
      → StoreStep s t
  keeps_local :
      {s t : LocalStore} (mutation_id : String) (now : ℕ) (skill_id : String) (confirmed : Bool)
      (applied : ResolutionApplied)
      → resolve_keep_local mutation_id now skill_id confirmed s ≡ ok (applied, t)
      → StoreStep s t
  keeps_remote :
      {s t : LocalStore} (skill_id : String) (confirmed : Bool) (applied : ResolutionApplied)
      → resolve_keep_remote skill_id confirmed s ≡ ok (applied, t)
      → StoreStep s t
  pulls :
      {s t : LocalStore} (parse : String → ℕ ⊎ String) (temp_dir : String) (instant now : ℕ)
      (page : ChangesPage) (applied : PageApplied)
      → apply_changes_page parse temp_dir instant now page s ≡ ok (applied, t)
      → StoreStep s t
  expires :
      {s t : LocalStore} (now : ℕ) (ids : List String)
      → expire_due_entitlements now s ≡ ok (ids, t)
      → StoreStep s t
  binds : {s t : LocalStore} → ScopeStep s t → StoreStep s t
  switches :
      {s t : LocalStore} (url : String) → prepare_server_switch url s ≡ ok (tt, t) → StoreStep s t
  logs_out : {s t : LocalStore} → invalidate_authenticated_scope s ≡ ok (tt, t) → StoreStep s t
  names_client :
      {s t : LocalStore} (drawn id : String)
      → ensure_client_instance_id drawn s ≡ ok (id, t)
      → StoreStep s t

pub data Reaches : LocalStore → LocalStore → Type 0 where
  done : {s : LocalStore} → Reaches s s
  after : {s t u : LocalStore} → StoreStep s t → Reaches t u → Reaches s u

abbrev pub IsSound : LocalStore → Type 0
IsSound s = IsKeyed s.skills × IsOutbox s.mutations

-- The identity of the installation is kept apart from the rows.
pub instance_id-SameRows :
    (drawn : String) (s : LocalStore) (id : String) (t : LocalStore)
    → ensure_client_instance_id drawn s ≡ ok (id, t)
    → (t.skills ≡ s.skills) × (t.mutations ≡ s.mutations)
unfolding ensure_client_instance_id
instance_id-SameRows drawn s id t h = elim (Option-cases s.sync.client_instance_id) [
  | inl fresh ↦
      let e = (ok_parts (rw fresh at h)).1 in
      (ap (λ u. u.skills) (sym e), ap (λ u. u.mutations) (sym e))
  | inr known ↦
      let e = (ok_parts (rw known.1 at h)).1 in
      (ap (λ u. u.skills) (sym e), ap (λ u. u.mutations) (sym e))
]

same_rows-IsSound :
    (s t : LocalStore) → (t.skills ≡ s.skills) × (t.mutations ≡ s.mutations) → IsSound s → IsSound t
same_rows-IsSound s t (es, em) (keys, box) = (rw es keys, rw em box)

pub step-IsSound : (s t : LocalStore) → StoreStep s t → IsSound s → IsSound t
step-IsSound s t (edits id now edit row h) (keys, box) =
    (commit-IsKeyed s t keys id now edit row h, commit-IsOutbox id now edit s row t h box)
step-IsSound s t (deletes id now skill_id base row h) (keys, box) = (
  queue_delete-IsKeyed s t keys id now skill_id base row h,
  queue_delete-IsOutbox id now skill_id base s row t h box,
)
step-IsSound s t (claims now limit rows h) (keys, box) =
    (claim-IsKeyed s t keys now limit rows h, claim_dispatchable-IsOutbox now limit s rows t h box)
step-IsSound s t (releases ids n h) (keys, box) =
    (release-IsKeyed s t keys ids n h, release-IsOutbox ids s n t h box)
step-IsSound s t (restarts n h) (keys, box) =
    (recover-IsKeyed s t keys n h, recover-IsOutbox s n t h box)
step-IsSound s t (learns now outcome applied h) (keys, box) = (
  apply_mutation_outcome-IsKeyed s t keys now outcome applied h,
  outcome-IsOutbox now outcome s t applied h box,
)
step-IsSound s t (keeps_local id now skill_id confirmed applied h) (keys, box) = (
  keep_local-IsKeyed s t keys id now skill_id confirmed applied h,
  resolve_keep_local-IsOutbox id now skill_id confirmed s applied t h box,
)
step-IsSound s t (keeps_remote skill_id confirmed applied h) (keys, box) = (
  keep_remote-IsKeyed s t keys skill_id confirmed applied h,
  resolve_keep_remote-IsOutbox skill_id confirmed s applied t h box,
)
step-IsSound s t (pulls parse temp_dir instant now page applied h) (keys, box) =
    let (unacked, held, keys', box', cursor) =
      pull_preserves_work parse temp_dir instant now page s t applied h keys box in
    (keys', box')
step-IsSound s t (expires now ids h) (keys, box) =
    let (keys', em) = expire_due-keeps now ids s t h keys in (keys', rw em box)
step-IsSound s t (binds step) sound = same_rows-IsSound s t (scope-SameRows s t step) sound
step-IsSound s t (switches url h) sound = same_rows-IsSound s t (switch-SameRows url s t h) sound
step-IsSound s t (logs_out h) sound = same_rows-IsSound s t (logout-SameRows s t h) sound
step-IsSound s t (names_client drawn id h) sound =
    same_rows-IsSound s t (instance_id-SameRows drawn s id t h) sound

-- Wherever a sequence of operations leads from a store in which the keys of the skills are unique
-- and the outbox satisfies its invariant, the keys of the skills and of the mutations are unique, and
-- every mutation in flight has every earlier mutation of its skill acknowledged.
pub reached_is_sound :
    (s t : LocalStore)
    → Reaches s t
    → IsKeyed s.skills × IsOutbox s.mutations
    → IsKeyed t.skills × IsOutbox t.mutations
reached_is_sound s t done sound = sound
reached_is_sound s u (after {t = t} step steps) sound =
    reached_is_sound t u steps (step-IsSound s t step sound)

-- Wherever a sequence of operations leads from a store with unique skill keys and a sound outbox, two mutations in flight for one skill are one mutation.
pub reached_one_in_flight :
    (s t : LocalStore) (m n : LocalMutation)
    → Reaches s t
    → IsKeyed s.skills × IsOutbox s.mutations
    → Memᴰ m t.mutations
    → Memᴰ n t.mutations
    → is_in_flight m.state ≡ true
    → is_in_flight n.state ≡ true
    → m.skill_id ≡ n.skill_id
    → m ≡ n
reached_one_in_flight s t m n steps sound mm mn fm fn same =
    in_flight_unique t.mutations m n (reached_is_sound s t steps sound).1 mm mn fm fn same

-- Wherever a sequence of operations leads from a store with unique skill keys and a sound outbox, a claim hands out a mutation only when
-- every earlier mutation of its skill is acknowledged.
pub reached_claims_in_order :
    (s t u : LocalStore) (now limit : ℕ) (rows : List LocalMutation) (m e : LocalMutation)
    → Reaches s t
    → IsKeyed s.skills × IsOutbox s.mutations
    → claim_dispatchable_mutations now limit t ≡ ok (rows, u)
    → Memᴰ m rows
    → Memᴰ e u.mutations
    → e.skill_id ≡ m.skill_id
    → e.local_sequence < m.local_sequence
    → is_acked e.state ≡ true
reached_claims_in_order s t u now limit rows m e steps sound claimed mm me same earlier =
    let (inside, flying, clear) =
      claim_causal now limit t rows u claimed (reached_is_sound s t steps sound).1 m mm in
    clear e me same earlier
