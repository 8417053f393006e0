-- ===== src/Deploy/Machine.antt =====
-- What a transaction of frontend/src-tauri/src/deployment.rs reads and writes, and its writes one by
-- one. Any of them may fail, or be the last before the process dies.
use skill_hive.Prelude.{String, Bool, true, false, Option, none, some, not, List, [], ◌∷◌, is_some}
use skill_hive.Deploy.Journal.{
  DeploymentError, io, unrecoverable_transaction, DeploymentJournal, JournalFile, CutLine, appended,
  appended_in_part, empty_journal,
}

-- The three entries of the skill root that the transaction names, and its journal file.
pub record Disk (Tree : Type 0) : Type 0 where
  pub destination : Option Tree
  pub staging : Option Tree
  pub backup : Option Tree
  pub journal : Option JournalFile

-- What a write that fails or is cut short leaves: of a tree, and of a line of the journal.
pub record Remains (Tree : Type 0) : Type 0 where
  pub tree : Option Tree
  pub line : Option CutLine

pub data Fate (Tree : Type 0) : Type 0 where
  works : Fate Tree
  fails : Remains Tree → Fate Tree
  stops : Remains Tree → Fate Tree

pub data Outcome (A : Type 0) : Type 0 where
  returned : A → Outcome A
  failed : DeploymentError → Outcome A
  stopped : Outcome A

-- What the engine uses of frontend/src-tauri/src/skill_snapshot.rs and
-- frontend/src-tauri/src/snapshot_verifier.rs, and what other programs make of a candidate that is
-- moved to its destination.
pub record Snapshots (Tree : Type 0) : Type 0 where
  pub materialize : String → Option Tree
  pub verifies : String → Tree → Bool
  pub touched : Tree → Tree

-- The code between two writes takes the fates of the writes to come.
abbrev pub Run : Type 0 → Type 0 → Type 0
Run Tree A = List (Fate Tree) → Disk Tree → Outcome A × List (Fate Tree) × Disk Tree

abbrev pub file_of : Option JournalFile → JournalFile
file_of none = empty_journal
file_of (some file) = file

abbrev pub partly : DeploymentJournal → Option CutLine → Option JournalFile → Option JournalFile
partly j none file = file
partly j (some c) file = some (appended_in_part j c (file_of file))

-- `unrecoverable`
abbrev pub unrecoverable : DeploymentJournal → String → DeploymentError
unrecoverable j reason = unrecoverable_transaction j.transaction_id reason

module _ {Tree : Type 0} where
  unfoldable pub next_step :
      {A B : Type 0}
      → (A → Run Tree B)
      → Outcome A × List (Fate Tree) × Disk Tree
      → Outcome B × List (Fate Tree) × Disk Tree
  next_step rest (returned a, fates, d) = rest a fates d
  next_step rest (failed e, fates, d) = (failed e, fates, d)
  next_step rest (stopped, fates, d) = (stopped, fates, d)

  unfoldable pub finish : {A : Type 0} → A → Run Tree A
  finish a fates d = (returned a, fates, d)

  unfoldable pub raise : {A : Type 0} → DeploymentError → Run Tree A
  raise e fates d = (failed e, fates, d)

  unfoldable pub die : {A : Type 0} → Run Tree A
  die fates d = (stopped, fates, d)

  -- `path_entry_exists(…)?` and other reads of the disk
  unfoldable pub look : {A : Type 0} → (Disk Tree → A) → Run Tree A
  look f fates d = (returned (f d), fates, d)

  infixl 5 ◌>>=◌ ◌>>◌
  unfoldable pub ◌>>=◌ : {A B : Type 0} → Run Tree A → (A → Run Tree B) → Run Tree B
  (first >>= rest) fates d = next_step rest (first fates d)

  unfoldable pub ◌>>◌ : {B : Type 0} → Run Tree (Unit {0}) → Run Tree B → Run Tree B
  first >> rest = first >>= λ _. rest

  -- `if test { … }`
  unfoldable pub when : Bool → Run Tree (Unit {0}) → Run Tree (Unit {0})
  when true body = body
  when false body = finish tt

  -- `if test { return Err(e) }`
  unfoldable pub refuse_if : Bool → DeploymentError → Run Tree (Unit {0})
  refuse_if true e = raise e
  refuse_if false e = finish tt

  -- One write: what it makes of the disk, and what it leaves when it fails or is cut short.
  unfoldable pub write :
      (Disk Tree → Disk Tree) → (Remains Tree → Disk Tree → Disk Tree) → Run Tree (Unit {0})
  write done partial [] d = (returned tt, [], done d)
  write done partial (works ∷ fates) d = (returned tt, fates, done d)
  write done partial (fails r ∷ fates) d = (failed io, fates, partial r d)
  write done partial (stops r ∷ fates) d = (stopped, fates, partial r d)

  -- `first.ok();`: an error is dropped.
  unfoldable pub dropping :
      Outcome (Unit {0}) × List (Fate Tree) × Disk Tree
      → Outcome (Unit {0}) × List (Fate Tree) × Disk Tree
  dropping (failed e, fates, d) = (returned tt, fates, d)
  dropping (returned u, fates, d) = (returned tt, fates, d)
  dropping (stopped, fates, d) = (stopped, fates, d)

  unfoldable pub ignoring : Run Tree (Unit {0}) → Run Tree (Unit {0})
  ignoring first fates d = dropping (first fates d)

  -- `sync_directory`
  unfoldable pub sync_directory : Run Tree (Unit {0})
  sync_directory = write (λ d. d) (λ r d. d)

  -- `remove_any`, which may stop halfway through a tree.
  unfoldable pub remove_destination : Run Tree (Unit {0})
  remove_destination =
      write (λ d. record d { destination = none }) (λ r d. record d { destination = r.tree })

  unfoldable pub remove_staging : Run Tree (Unit {0})
  remove_staging = write (λ d. record d { staging = none }) (λ r d. record d { staging = r.tree })

  unfoldable pub remove_backup : Run Tree (Unit {0})
  remove_backup = write (λ d. record d { backup = none }) (λ r d. record d { backup = r.tree })

  -- `fs::rename(&destination, &backup)`
  unfoldable pub move_old : Run Tree (Unit {0})
  move_old = write (λ d. record d { destination = none; backup = d.destination }) (λ r d. d)

  -- `fs::rename(&backup, &destination)`
  unfoldable pub move_back : Run Tree (Unit {0})
  move_back = write (λ d. record d { destination = d.backup; backup = none }) (λ r d. d)

  abbrev pub moved : (Tree → Tree) → Option Tree → Option Tree
  moved touch none = none
  moved touch (some tree) = some (touch tree)

  -- `fs::rename(&staging, &destination)`
  unfoldable pub activate : Snapshots Tree → Run Tree (Unit {0})
  activate sn =
      write (λ d. record d { destination = moved sn.touched d.staging; staging = none }) (λ r d. d)

  -- `persist_journal`
  unfoldable pub persist_journal : DeploymentJournal → Run Tree (Unit {0})
  persist_journal j = do
    existed ← look (λ d. is_some d.journal)
    write (λ d. record d { journal = some (appended j (file_of d.journal)) })
        (λ r d. record d { journal = partly j r.line d.journal })
    when (not existed) sync_directory

  -- `remove_journal`
  unfoldable pub remove_journal : Run Tree (Unit {0})
  remove_journal = do
    existed ← look (λ d. is_some d.journal)
    when existed (write (λ d. record d { journal = none }) (λ r d. d) >> sync_directory)

  -- `restore_backup`
  unfoldable pub restore_backup : DeploymentJournal → Run Tree (Unit {0})
  restore_backup j = do
    destination_exists ← look (λ d. is_some d.destination)
    backup_exists ← look (λ d. is_some d.backup)
    refuse_if destination_exists (unrecoverable j "cannot restore backup while destination exists")
    refuse_if (not backup_exists) (unrecoverable j "backup is missing")
    move_back
    sync_directory

  -- `rollback_active_to_backup`
  unfoldable pub rollback_active_to_backup : DeploymentJournal → Run Tree (Unit {0})
  rollback_active_to_backup j = do
    destination_exists ← look (λ d. is_some d.destination)
    when destination_exists remove_destination
    restore_backup j

  abbrev pub verified_entry : Snapshots Tree → String → Option Tree → Bool
  verified_entry sn hash none = false
  verified_entry sn hash (some tree) = sn.verifies hash tree
