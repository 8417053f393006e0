-- ===== src/Sync/Drain.antt =====
-- frontend/src-tauri/src/sync_pull.rs: pages of changes are pulled and applied until the feed is caught
-- up, or as many pages as a cycle may take.
use skill_hive.Prelude.{
  ℕ, zero, suc, ◌+◌, String, Bool, false, not, ◌||◌, ◌⊎◌, inl, inr, leb, if◌then◌else◌,
}
use skill_hive.Store.{LocalStore, LocalStoreError, Result}
use skill_hive.Pull.{ChangesPage, PageApplied, apply_changes_page}
use skill_hive.Sync.Wire.{Client}
use skill_hive.Sync.Push.{Step, ◌>>=◌, finish, raise, look, stored, answered}

pub data PullError : Type 0 where
  store_failed : LocalStoreError → PullError
  fetch_failed : String → PullError
  blobs_failed : String → PullError
  -- The model's own: the loop took more rounds than it was given.
  exhausted : PullError

abbrev pub max_pages_per_cycle : ℕ
max_pages_per_cycle = 100

pub record PullSummary : Type 0 where
  pub pages_applied : ℕ
  pub upserts : ℕ
  pub tombstones : ℕ
  pub conflicts_detected : ℕ
  pub blobs_downloaded : ℕ
  pub has_more : Bool

abbrev pub empty_summary : PullSummary
empty_summary = record {
  pages_applied = 0;
  upserts = 0;
  tombstones = 0;
  conflicts_detected = 0;
  blobs_downloaded = 0;
  has_more = false;
}

abbrev pub summed : PullSummary → ℕ → PageApplied → PullSummary
summed summary count applied = record summary {
  pages_applied = summary.pages_applied + 1;
  upserts = summary.upserts + applied.upserts;
  tombstones = summary.tombstones + applied.tombstones;
  conflicts_detected = summary.conflicts_detected + applied.conflicts_detected;
  blobs_downloaded = summary.blobs_downloaded + count;
}

abbrev pub fetched : String ⊎ ChangesPage → PullError ⊎ ChangesPage
fetched (inl text) = inl (fetch_failed text)
fetched (inr page) = inr page

abbrev pub downloaded : String ⊎ ℕ → PullError ⊎ ℕ
downloaded (inl text) = inl (blobs_failed text)
downloaded (inr count) = inr count

abbrev pub drained : ChangesPage → PullSummary → Bool
drained page summary = not page.has_more || leb max_pages_per_cycle summary.pages_applied

module _ (c : Client) where
  -- The end of a round of the loop.
  unfoldable pub turn :
      ChangesPage → PullSummary → Step PullError PullSummary → Step PullError PullSummary
  turn page summary again =
      if drained page summary then finish (record summary { has_more = page.has_more }) else again

  abbrev pub apply_page : ℕ → ChangesPage → LocalStore → Result (PageApplied × LocalStore)
  apply_page round page =
      apply_changes_page c.parse_instant c.temp_dir (c.instant_at round) (c.pulls_at round) page

  -- The loop, with the number of rounds that it may take.
  unfoldable pub pull_pages : ℕ → PullSummary → Step PullError PullSummary
  pull_pages zero summary = raise exhausted
  pull_pages (suc rounds) summary = do
    cursor ← look (λ s. s.sync.server_cursor)
    page ← answered (fetched (c.fetch_page summary.pages_applied cursor))
    count ← answered (downloaded (c.download_blobs summary.pages_applied page))
    applied ← stored store_failed (apply_page summary.pages_applied page)
    turn page (summed summary count applied) (pull_pages rounds (summed summary count applied))

  unfoldable pub pull_changes : Step PullError PullSummary
  pull_changes = pull_pages max_pages_per_cycle empty_summary
