-- ===== src/Sync/Bounds.antt =====
-- The bounds of a cycle: how many mutations it sends and how many pages it takes.
use skill_hive.Prelude.{
  ℕ, zero, suc, ◌+◌, ◌≤◌, ◌<◌, String, ◌≡◌, ◌≢◌, refl, sym, subst, ap, true, List, [], ◌∷◌, ◌⊎◌,
  inl, inr, some, none, length, Bool-cases, arith,
}
use skill_hive.Store.{LocalStore, LocalMutation, ok}
use skill_hive.Outbox.{claim_dispatchable_mutations, claim_each}
use skill_hive.Outbox.Dispatch.Order.{length-read_dispatchable}
use skill_hive.Outbox.Claims.{Claims, claim_each-cons}
use skill_hive.Outbox.Claimed.{claim_dispatchable-Claim}
use skill_hive.Pull.{ChangesPage, PageApplied}
use skill_hive.Sync.Wire.{Client, SyncCycleError}
use skill_hive.Sync.Push.{Step, ◌>>=◌, next, stored, Pushed, one_more, after_dispatch, push_each}
use skill_hive.Sync.Drain.{
  PullError, PullSummary, exhausted, empty_summary, summed, fetched, downloaded, turn, drained,
  pull_pages, pull_changes, max_pages_per_cycle,
}
use skill_hive.Sync.Cycle.{push}
use skill_hive.Sync.Yields.{
  Holds, Yields, bind-Yields, finish-Yields, look-Yields, answered-Yields, stored-Yields, Anything,
  anything,
}

-- A claim hands out no more mutations than it was asked for.
claim_each-length :
    (now : ℕ) (candidates table : List LocalMutation) (claimed : Claims)
    → claim_each now candidates table ≡ ok claimed
    → length claimed.0 ≡ length candidates
claim_each-length now [] table claimed h =
    let e : [] ≡ claimed.0 = unfold claim_each in ground arith in ap length (sym e)
claim_each-length now (c ∷ cs) table claimed h =
    let (row, rest, reread, later, e) = claim_each-cons now c cs table claimed h in
    rw e (ap suc (claim_each-length now cs _ rest later))

claimed_at_most :
    (now limit : ℕ) (s : LocalStore) (rows : List LocalMutation) (t : LocalStore)
    → claim_dispatchable_mutations now (suc limit) s ≡ ok (rows, t)
    → length rows ≤ suc limit
claimed_at_most now limit s rows t h =
    let (candidates, claimed, read, done, er, et) = claim_dispatchable-Claim now limit s rows t h in
    omega (
      arith,
      ap length er,
      claim_each-length now candidates s.mutations claimed done,
      length-read_dispatchable now (suc limit) s.mutations candidates read,
    )

module _ (c : Client) where
  -- What the loop reports of the mutations that it was given: their number, or with a
  -- failure a smaller one.
  abbrev pub Counts : ℕ → Pushed → Type 0
  Counts total (n, none) = n ≡ total
  Counts total (n, some e) = n < total

  one_more-Counts :
      (total : ℕ) (pushed : Pushed) → Counts total pushed → Counts (suc total) (one_more pushed)
  one_more-Counts total (n, none) h = omega arith
  one_more-Counts total (n, some e) h = omega arith

  after_dispatch-Yields :
      (tail : List LocalMutation) {go : Step SyncCycleError Pushed}
      → Yields go (Counts (length tail)) Anything
      → (result : SyncCycleError ⊎ Unit {0})
      → Yields (after_dispatch c tail go result) (Counts (suc (length tail))) Anything
  unfolding after_dispatch
  after_dispatch-Yields tail h (inr u) =
      bind-Yields (Counts (length tail)) h
        (λ pushed counts. finish-Yields _ (one_more-Counts (length tail) pushed counts))
  after_dispatch-Yields tail h (inl e) =
      bind-Yields Anything (anything _) (λ n u. finish-Yields _ (omega arith))

  push_each-Yields :
      (claimed : List LocalMutation)
      → Yields (push_each c claimed) (Counts (length claimed)) Anything
  unfolding push_each
  push_each-Yields [] = finish-Yields _ refl
  push_each-Yields (m ∷ tail) =
      bind-Yields Anything (anything _)
        (λ r u. after_dispatch-Yields tail (push_each-Yields tail) r)

  abbrev Drained : PullSummary → Type 0
  Drained summary =
      (summary.pages_applied ≤ max_pages_per_cycle)
      × (summary.has_more ≡ true → summary.pages_applied ≡ max_pages_per_cycle)

  abbrev InTime : PullError → Type 0
  InTime e = e ≢ exhausted

  turn-Yields :
      (page : ChangesPage) (summary : PullSummary) (again : Step PullError PullSummary)
      → summary.pages_applied ≤ max_pages_per_cycle
      → (summary.pages_applied < max_pages_per_cycle → Yields again Drained InTime)
      → Yields (turn c page summary again) Drained InTime
  unfolding turn
  turn-Yields page summary again le h = elim (Bool-cases (drained page summary)) [
    | inl over ↦ rw over (finish-Yields _ (le, λ more. ground arith))
    | inr open_feed ↦ rw open_feed (h (ground arith))
  ]

  fetched-InTime : (answer : String ⊎ ChangesPage) → Holds Anything InTime (fetched answer)
  fetched-InTime (inl text) = λ e. cc
  fetched-InTime (inr page) = tt

  downloaded-InTime : (answer : String ⊎ ℕ) → Holds Anything InTime (downloaded answer)
  downloaded-InTime (inl text) = λ e. cc
  downloaded-InTime (inr count) = tt

  round-Yields :
      (rounds : ℕ) (summary : PullSummary)
      → summary.pages_applied < max_pages_per_cycle
      → ((count : ℕ) (applied : PageApplied)
          → summary.pages_applied + 1 < max_pages_per_cycle
          → Yields (pull_pages c rounds (summed summary count applied)) Drained InTime)
      → Yields (pull_pages c (suc rounds) summary) Drained InTime
  unfolding pull_pages
  round-Yields rounds summary lt again = bind-Yields Anything (look-Yields _) (λ cursor u.
      bind-Yields Anything (answered-Yields _ (fetched-InTime _)) (λ page u.
        bind-Yields Anything (answered-Yields _ (downloaded-InTime _)) (λ count u.
          bind-Yields Anything (stored-Yields _ _ (λ e eq. cc) (λ s a t h. tt)) (λ applied u.
            turn-Yields page (summed summary count applied) _ (omega arith)
              (λ more. again count applied more)))))

  pull_pages-Yields :
      (rounds : ℕ) (summary : PullSummary)
      → summary.pages_applied + suc rounds ≡ max_pages_per_cycle
      → Yields (pull_pages c (suc rounds) summary) Drained InTime
  pull_pages-Yields zero summary fits =
      round-Yields zero summary (omega arith) (λ count applied lt. absurd (omega arith))
  pull_pages-Yields (suc rounds) summary fits =
      round-Yields (suc rounds) summary (omega arith)
        (λ count applied lt. pull_pages-Yields rounds (summed summary count applied) (omega arith))

  -- The loop of the pull ends for every feed: it never needs more than the rounds that the bound
  -- gives it, and a pull that succeeds has applied at most that many pages, and exactly that many if it
  -- reports that the feed has more.
  pub pull_is_bounded :
      (s : LocalStore)
      → ((pull_changes c s).0 ≢ inl exhausted)
        × ((summary : PullSummary)
            → (pull_changes c s).0 ≡ inr summary
            → (summary.pages_applied ≤ max_pages_per_cycle)
              × (summary.has_more ≡ true → summary.pages_applied ≡ max_pages_per_cycle))
  unfolding pull_changes
  pull_is_bounded s =
      let held = (pull_pages-Yields 99 empty_summary refl).yields s in
      (
        λ e. subst (Holds Drained InTime) e held refl,
        λ summary e. subst (Holds Drained InTime) e held,
      )

  pull_changes-Yields : Yields (pull_changes c) Drained InTime
  unfolding pull_changes
  pull_changes-Yields = pull_pages-Yields 99 empty_summary refl

module _ (c : Client) (error_text : PullError → String) where
  -- The push of a cycle claims at most 50 mutations. If it succeeds
  -- without a failure, the number that it reports is that of the claimed mutations; if it reports a failure,
  -- the number is smaller.
  pub push_is_bounded :
      (s t : LocalStore) (rows : List LocalMutation) (pushed : Pushed)
      → claim_dispatchable_mutations c.claims_at 50 s ≡ ok (rows, t)
      → (push c error_text s).0 ≡ inr pushed
      → (length rows ≤ 50) × Counts c (length rows) pushed
  unfolding push stored ◌>>=◌ next
  push_is_bounded s t rows pushed claimed h =
      let rest = bind-Yields (Counts c (length rows)) (push_each-Yields c rows) (λ result counts.
        bind-Yields Anything (anything _) (λ (noted : Unit {0}) u. finish-Yields result counts)) in
      (
        claimed_at_most c.claims_at 49 s rows t claimed,
        subst (Holds (Counts c (length rows)) Anything) (rw claimed at h) (rest.yields t),
      )
