-- ===== src/Deploy/Steps.antt =====
-- The single steps of a transaction, from and to what they keep of the target that was there before.
use skill_hive.Prelude.{String, ◌≡◌, refl, true, false, Option, none, some, ◌⊎◌, is_some}
use skill_hive.Deploy.Journal.{DeploymentJournal}
use skill_hive.Deploy.Machine.{
  Disk, Snapshots, sync_directory, remove_staging, persist_journal, remove_journal, verified_entry,
}
use skill_hive.Deploy.Rules.{
  Always, Proves, then-Proves, look-Proves, write-Proves, sync-Proves, when-Proves,
}
use skill_hive.Deploy.Records.{IsOwn, OwnJournal, appended-OwnFile, partly-OwnJournal}

pub is_some-false : {A : Type 0} (o : Option A) → is_some o ≡ false → o ≡ none
is_some-false none h = refl
is_some-false (some a) h = cc

-- The journal is one of the transaction, and `entries` holds of the destination and the backup.
pub record On {Tree : Type 0} (hash : String) (entries : Option Tree → Option Tree → Type 0)
    (d : Disk Tree) : Type 0 where
  pub own : OwnJournal hash d.journal
  pub held : entries d.destination d.backup

module _ {Tree : Type 0} (old : Tree) where
  abbrev pub Untouched : Option Tree → Option Tree → Type 0
  Untouched destination backup = (destination ≡ some old) × (backup ≡ none)

  abbrev pub Aside : Option Tree → Option Tree → Type 0
  Aside destination backup = backup ≡ some old

  abbrev pub Moved : Option Tree → Option Tree → Type 0
  Moved destination backup = (destination ≡ none) × (backup ≡ some old)

module _ {Tree : Type 0} (sn : Snapshots Tree) (hash : String) where
  abbrev pub Active : Option Tree → Option Tree → Type 0
  Active destination backup = verified_entry sn hash destination ≡ true

  abbrev pub Sealed : Option Tree → Option Tree → Type 0
  Sealed destination backup = (verified_entry sn hash destination ≡ true) × (backup ≡ none)

  -- The old target is in its place, or is the backup, or a verified tree has taken its place.
  abbrev pub Kept : Tree → Option Tree → Option Tree → Type 0
  Kept old destination backup =
      Untouched old destination backup ⊎ (Aside old destination backup ⊎ Active destination backup)

-- Steps that leave the destination and the backup alone.
module _ {Tree : Type 0} {hash : String} {crash : Option Tree → Option Tree → Type 0}
    (entries : Option Tree → Option Tree → Type 0)
    (weaker : (a b : Option Tree) → entries a b → crash a b) {d : Disk Tree}
    (on : On hash entries d) where
  weak : On hash crash d
  weak = record { own = on.own; held = weaker d.destination d.backup on.held }

  pub sync-On : Proves sync_directory (Always (On hash entries)) (On hash crash) d
  sync-On = sync-Proves on weak

  pub remove_staging-On : Proves remove_staging (Always (On hash entries)) (On hash crash) d
  unfolding remove_staging
  remove_staging-On =
      write-Proves _ _ (record { own = on.own; held = on.held })
        (λ r. record { own = on.own; held = weaker d.destination d.backup on.held })

  pub persist-On :
      (j : DeploymentJournal)
      → IsOwn hash j
      → Proves (persist_journal j) (Always (On hash entries)) (On hash crash) d
  unfolding persist_journal
  persist-On j own = look-Proves _ _ (
      then-Proves (On hash entries)
        (write-Proves _ _
          (record { own = appended-OwnFile hash j d.journal own on.own; held = on.held })
          (λ r. record {
            own = partly-OwnJournal hash j r.line d.journal own on.own;
            held = weaker d.destination d.backup on.held;
          }))
        (λ d' on'.
          when-Proves _
            (λ t.
              sync-Proves on'
                (record { own = on'.own; held = weaker d'.destination d'.backup on'.held }))
            (λ t. on')))

  pub remove_journal-On :
      Proves remove_journal
        (Always (λ d'. On hash entries d' × (d'.journal ≡ none)))
        (On hash crash)
        d
  unfolding remove_journal
  remove_journal-On = look-Proves _ _ (
      when-Proves (is_some d.journal)
        (λ t.
          then-Proves (λ d'. On hash entries d' × (d'.journal ≡ none))
            (write-Proves _ _ (record { own = tt; held = on.held }, refl) (λ r. weak))
            (λ d' p.
              sync-Proves p
                (record { own = p.0.own; held = weaker d'.destination d'.backup p.0.held })))
        (λ f. (on, is_some-false d.journal f)))
