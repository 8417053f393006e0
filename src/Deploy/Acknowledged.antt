-- ===== src/Deploy/Acknowledged.antt =====
-- The acknowledgement of a deployment, after which its journal is gone.
use skill_hive.Prelude.{
  String, ◌≡◌, refl, Bool, true, false, not, ◌||◌, none, List, ◌⊎◌, inl, inr, is_some, ◌==◌, eq_iff,
  ap,
}
use skill_hive.Deploy.Journal.{
  DeploymentError, DeploymentJournal, DeploymentPhase, intent, prepared, old_moved, activated,
}
use skill_hive.Deploy.Machine.{Disk, Fate, Snapshots, remove_journal, verified_entry}
use skill_hive.Deploy.Engine.{
  latest_entry, acknowledge_read, acknowledge_catalog_commit, is_activated,
}
use skill_hive.Deploy.Rules.{
  Ends, Always, Proves, then-Proves, look-Proves, write-Proves, when-Proves, refuse_if-Proves,
  require-Proves, raise-Proves, sync-Proves,
}
use skill_hive.Deploy.Steps.{is_some-false}

or-false : (a b : Bool) → (a || b) ≡ false → (a ≡ false) × (b ≡ false)
or-false true b h = cc
or-false false b h = (refl, h)

not-eq-false : (b : Bool) → not b ≡ false → b ≡ true
not-eq-false true h = refl
not-eq-false false h = cc

is_activated-eq : (p : DeploymentPhase) → is_activated p ≡ true → p ≡ activated
is_activated-eq intent h = cc
is_activated-eq prepared h = cc
is_activated-eq old_moved h = cc
is_activated-eq activated h = refl

module _ {Tree : Type 0} (sn : Snapshots Tree) (id : String) (before : Disk Tree) where
  -- What an acknowledgement that succeeds has seen: the record of this transaction that its target is
  -- active, the target that verifies, and no other entry of the transaction.
  pub record Seen (j : DeploymentJournal) : Type 0 where
    pub latest : latest_entry before.journal ≡ inr j
    pub named : j.transaction_id ≡ id
    pub ended : j.phase ≡ activated
    pub verified : verified_entry sn j.snapshot_hash before.destination ≡ true
    pub nothing_staged : before.staging ≡ none
    pub nothing_saved : before.backup ≡ none

  abbrev pub Unchanged : Disk Tree → Type 0
  Unchanged d =
      (d.destination ≡ before.destination)
      × (d.staging ≡ before.staging)
      × (d.backup ≡ before.backup)

  abbrev pub Acknowledged : Unit {0} → Disk Tree → Type 0
  Acknowledged u d = ((j : DeploymentJournal) × Seen j) × (d.journal ≡ none) × Unchanged d

  abbrev Same : Disk Tree → Type 0
  Same d = d ≡ before

  unchanged : {d : Disk Tree} → d ≡ before → Unchanged d
  unchanged e = (ap (λ d. d.destination) e, ap (λ d. d.staging) e, ap (λ d. d.backup) e)

  remove_journal-On :
      (P : Type 0)
      → P
      → {d : Disk Tree} → d ≡ before
      → Proves remove_journal (Always (λ d. P × (d.journal ≡ none) × Unchanged d)) Unchanged d
  unfolding remove_journal
  remove_journal-On P p {d} e = look-Proves _ _ (
      when-Proves (is_some d.journal)
        (λ t.
          then-Proves (λ d. P × (d.journal ≡ none) × Unchanged d)
            (write-Proves _ _ (p, refl, unchanged e) (λ r. unchanged e)) (λ d h. sync-Proves h h.2))
        (λ f. (p, is_some-false d.journal f, unchanged e)))

  abbrev leftover : Disk Tree → Bool
  leftover d = not (is_some d.destination) || is_some d.staging || is_some d.backup

  abbrev foreign : DeploymentJournal → Bool
  foreign j = not (j.transaction_id == id) || not (is_activated j.phase)

  seen :
      (j : DeploymentJournal)
      → latest_entry before.journal ≡ inr j
      → foreign j ≡ false
      → leftover before ≡ false
      → not (verified_entry sn j.snapshot_hash before.destination) ≡ false
      → Seen j
  seen j latest f l v =
      let (named, ended) = or-false _ _ f in
      let (a, saved) = or-false _ _ l in
      let (gone, staged) = or-false _ _ a in
      record {
        latest = latest;
        named = (eq_iff j.transaction_id id).0 (not-eq-false _ named);
        ended = is_activated-eq j.phase (not-eq-false _ ended);
        verified = not-eq-false _ v;
        nothing_staged = is_some-false before.staging staged;
        nothing_saved = is_some-false before.backup saved;
      }

  read-Acknowledged :
      (latest : DeploymentError ⊎ DeploymentJournal)
      → latest_entry before.journal ≡ latest
      → {d : Disk Tree} → d ≡ before
      → Proves (acknowledge_read sn id latest) Acknowledged Unchanged d
  unfolding acknowledge_read
  read-Acknowledged (inl e) eq same = raise-Proves e (unchanged same)
  read-Acknowledged (inr j) eq same =
      then-Proves Same (require-Proves _ same (unchanged same)) (λ d same.
        then-Proves (λ d. Same d × (foreign j ≡ false))
          (refuse_if-Proves _ _ (unchanged same) (λ f. (same, f)))
          (λ d (same, f). look-Proves _ _ (
            then-Proves (λ e. Same e × (leftover d ≡ false))
              (refuse_if-Proves _ _ (unchanged same) (λ l. (same, l)))
              (λ e (same', l). look-Proves _ _ (
                then-Proves
                  (λ g. Same g × (not (verified_entry sn j.snapshot_hash e.destination) ≡ false))
                  (refuse_if-Proves _ _ (unchanged same') (λ v. (same', v)))
                  (λ g (same'', v).
                    remove_journal-On ((j : DeploymentJournal) × Seen j)
                      (j, seen j eq f (rw (← same) l) (rw (← same') v)) same''))))))

  acknowledge-Acknowledged : Proves (acknowledge_catalog_commit sn id) Acknowledged Unchanged before
  unfolding acknowledge_catalog_commit
  acknowledge-Acknowledged =
      then-Proves Same (require-Proves _ refl (unchanged refl))
        (λ d same. look-Proves _ _ (read-Acknowledged (latest_entry d.journal) (rw same refl) same))

  -- An acknowledgement never changes the target, the staged tree or the backup, whatever fails. One
  -- that succeeds has removed the journal, and has seen that its latest record is one of this
  -- transaction in the phase activated, that the target verifies for the hash of the record, and that
  -- neither a staged tree nor a backup is left.
  pub acknowledge_effect :
      (fates : List (Fate Tree))
      → Ends Acknowledged Unchanged (acknowledge_catalog_commit sn id fates before)
  acknowledge_effect fates = acknowledge-Acknowledged.ends fates
