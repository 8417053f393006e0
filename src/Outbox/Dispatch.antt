-- ===== src/Outbox/Dispatch.antt =====
-- The dispatch side of mutations.rs: which mutations may be sent, their claim, and their release.
pub mod Order
use Prim.Native.Nat.{Ordering}
use Prim.Native.String.{compare}
use skill_hive.Prelude.{
  ℕ, zero, suc, ◌+◌, ◌^◌, String, Bool, true, false, not, ◌&&◌, ◌||◌, Option, none, some, List, [],
  ◌∷◌, ◌==◌, ltb, leb, nat_eq, if◌then◌else◌, take, select_where, find_where, exists_where,
  count_where, update_where, coalesce,
}
use skill_hive.Store.{
  LocalMutation, LocalStore, MutationState, is_acked, is_in_flight, is_queued, Result, ok, err,
  database, outbox_claim_lost, ◌>>=◌, ◌>>◌, reject_if,
}

-- next_attempt_at IS NULL OR datetime(next_attempt_at) <= CURRENT_TIMESTAMP
abbrev pub is_due : ℕ → Option ℕ → Bool
is_due now none = true
is_due now (some at) = leb at now

-- `earlier` is an unacknowledged mutation of the same skill, before `m`.
abbrev pub blocks : LocalMutation → LocalMutation → Bool
blocks m earlier =
    earlier.skill_id == m.skill_id
    && ltb earlier.local_sequence m.local_sequence
    && not (is_acked earlier.state)

-- The WHERE clause of `read_dispatchable`.
abbrev pub is_dispatchable : ℕ → List LocalMutation → LocalMutation → Bool
is_dispatchable now table m =
    is_queued m.state && is_due now m.next_attempt_at && not (exists_where (blocks m) table)

-- The order of texts in SQLite: by their bytes, which is by their code points.
abbrev text_leb : String → String → Bool
text_leb a b = elim (compare a b) [ Ordering.gt ↦ false | _ ↦ true ]

-- ORDER BY created_at ASC, id ASC
row_leb : LocalMutation → LocalMutation → Bool
row_leb a b =
    ltb a.created_at b.created_at || (nat_eq a.created_at b.created_at && text_leb a.id b.id)

insert : LocalMutation → List LocalMutation → List LocalMutation
insert m [] = m ∷ []
insert m (x ∷ xs) = let later = x ∷ insert m xs in if row_leb m x then m ∷ x ∷ xs else later

pub order_rows : List LocalMutation → List LocalMutation
unfolding insert row_leb
order_rows [] = []
order_rows (m ∷ ms) = insert m (order_rows ms)

-- `row.get(7)` into a `u32` fails on a counter that has outgrown it.
abbrev pub overflows_u32 : LocalMutation → Bool
overflows_u32 m = leb (2 ^ 32) m.retry_count

unfoldable pub read_dispatchable : ℕ → ℕ → List LocalMutation → Result (List LocalMutation)
unfolding order_rows
read_dispatchable now limit table =
    let rows = take limit (order_rows (select_where (is_dispatchable now table) table)) in
    if exists_where overflows_u32 rows then err database else ok rows

unfoldable pub list_dispatchable_mutations : ℕ → ℕ → LocalStore → Result (List LocalMutation)
unfolding read_dispatchable
list_dispatchable_mutations now zero s = ok []
list_dispatchable_mutations now limit s = read_dispatchable now limit s.mutations

abbrev pub has_id : String → LocalMutation → Bool
has_id id m = m.id == id

unfoldable pub read_mutation : String → List LocalMutation → Result LocalMutation
read_mutation id table = elim (find_where (has_id id) table) [
  | none ↦ err database
  | some m ↦ if overflows_u32 m then err database else ok m
]

abbrev pub is_claimable : String → LocalMutation → Bool
is_claimable id m = m.id == id && is_queued m.state

abbrev pub mark_in_flight : ℕ → LocalMutation → LocalMutation
mark_in_flight now m = record m {
  state = MutationState.in_flight;
  last_attempt_at = some now;
  next_attempt_at = none;
}

-- One round of the loop of `claim_dispatchable_mutations`.
abbrev pub claim_row : ℕ → String → List LocalMutation → List LocalMutation
claim_row now id table = update_where (is_claimable id) (mark_in_flight now) table

-- The claimed row, read again, before those of the later rounds.
abbrev pub claim_rest :
    Result LocalMutation
    → Result (List LocalMutation × List LocalMutation)
    → Result (List LocalMutation × List LocalMutation)
claim_rest reread rest = do row ← reread; claimed ← rest; ok (row ∷ claimed.0, claimed.1)

unfoldable pub claim_each :
    ℕ → List LocalMutation → List LocalMutation → Result (List LocalMutation × List LocalMutation)
unfolding read_mutation
claim_each now [] table = ok ([], table)
claim_each now (candidate ∷ candidates) table =
    let rest = claim_each now candidates (claim_row now candidate.id table) in
    if nat_eq (count_where (is_claimable candidate.id) table) 1
    then claim_rest (read_mutation candidate.id (claim_row now candidate.id table)) rest
    else err (outbox_claim_lost candidate.id)

unfoldable pub claim_dispatchable_mutations :
    ℕ → ℕ → LocalStore → Result (List LocalMutation × LocalStore)
unfolding read_dispatchable claim_each
claim_dispatchable_mutations now zero s = ok ([], s)
claim_dispatchable_mutations now limit s = do
  candidates ← read_dispatchable now limit s.mutations
  claimed ← claim_each now candidates s.mutations
  ok (claimed.0, record s { mutations = claimed.1 })

abbrev pub is_releasable : String → LocalMutation → Bool
is_releasable id m = m.id == id && is_in_flight m.state

abbrev pub requeue : LocalMutation → LocalMutation
requeue m = record m { state = MutationState.retryable_error; next_attempt_at = none }

unfoldable pub release_each : List String → List LocalMutation → ℕ × List LocalMutation
release_each [] table = (0, table)
release_each (id ∷ ids) table =
    let (released, rest) = release_each ids (update_where (is_releasable id) requeue table) in
    ((if nat_eq (count_where (is_releasable id) table) 1 then suc released else released), rest)

unfoldable pub release_in_flight_mutations : List String → LocalStore → Result (ℕ × LocalStore)
unfolding release_each
release_in_flight_mutations ids s =
    let (released, table) = release_each ids s.mutations in
    ok (released, record s { mutations = table })

abbrev pub recovered : LocalMutation → LocalMutation
recovered m = record m {
  state = MutationState.retryable_error;
  next_attempt_at = none;
  last_error = some "recovered after client restart with unknown remote outcome";
}

abbrev pub flies : LocalMutation → Bool
flies m = is_in_flight m.state

unfoldable pub recover_in_flight_mutations : LocalStore → Result (ℕ × LocalStore)
recover_in_flight_mutations s = ok (
  count_where flies s.mutations,
  record s { mutations = update_where flies recovered s.mutations },
)
