-- ===== src/Deploy/Records.antt =====
-- What the records of a journal have in common: they name one snapshot, and say that a target was
-- replaced.
use skill_hive.Prelude.{String, ◌≡◌, true, Option, none, some, List, [], ◌∷◌, ◌++◌, ◌⊎◌, inl, inr}
use skill_hive.Deploy.Journal.{
  DeploymentError, DeploymentJournal, JournalLine, written, blank, malformed, not_utf8, CutLine,
  cut, cut_in_character, without_newline, JournalFile, cut_line, ending_lines, all_lines, latest_of,
  read_latest_journal, joined, appended, joined_in_part,
}
use skill_hive.Deploy.Machine.{file_of, partly}
use skill_hive.Deploy.Engine.{latest_entry}

abbrev pub IsOwn : String → DeploymentJournal → Type 0
IsOwn hash j = (j.snapshot_hash ≡ hash) × (j.replaced_existing ≡ true)

abbrev pub OwnLine : String → JournalLine → Type 0
OwnLine hash (written j) = IsOwn hash j
OwnLine hash line = Unit {0}

abbrev pub OwnLines : String → List JournalLine → Type 0
OwnLines hash [] = Unit {0}
OwnLines hash (line ∷ lines) = OwnLine hash line × OwnLines hash lines

abbrev pub OwnEnding : String → Option CutLine → Type 0
OwnEnding hash none = Unit {0}
OwnEnding hash (some c) = OwnLine hash (cut_line c)

pub record OwnFile (hash : String) (file : JournalFile) : Type 0 where
  pub lines : OwnLines hash file.lines
  pub ending : OwnEnding hash file.ending

abbrev pub OwnJournal : String → Option JournalFile → Type 0
OwnJournal hash none = Unit {0}
OwnJournal hash (some file) = OwnFile hash file

abbrev pub OwnLatest : String → DeploymentError ⊎ DeploymentJournal → Type 0
OwnLatest hash (inl e) = Unit {0}
OwnLatest hash (inr j) = IsOwn hash j

abbrev OwnSome : String → Option DeploymentJournal → Type 0
OwnSome hash none = Unit {0}
OwnSome hash (some j) = IsOwn hash j

OwnLines-append :
    (hash : String) (xs ys : List JournalLine)
    → OwnLines hash xs
    → OwnLines hash ys
    → OwnLines hash (xs ++ ys)
OwnLines-append hash [] ys hx hy = hy
OwnLines-append hash (x ∷ xs) ys (h, hx) hy = (h, OwnLines-append hash xs ys hx hy)

latest_of-OwnLatest :
    (hash : String) (latest : Option DeploymentJournal) (lines : List JournalLine)
    → OwnSome hash latest
    → OwnLines hash lines
    → OwnLatest hash (latest_of latest lines)
unfolding latest_of
latest_of-OwnLatest hash none [] h k = tt
latest_of-OwnLatest hash (some j) [] h k = h
latest_of-OwnLatest hash none (written j ∷ lines) h (own, k) =
    latest_of-OwnLatest hash (some j) lines own k
latest_of-OwnLatest hash (some i) (written j ∷ lines) h (own, k) =
    latest_of-OwnLatest hash (some j) lines own k
latest_of-OwnLatest hash none (blank ∷ lines) h (u, k) = latest_of-OwnLatest hash none lines h k
latest_of-OwnLatest hash (some i) (blank ∷ lines) h (u, k) =
    latest_of-OwnLatest hash (some i) lines h k
latest_of-OwnLatest hash none (malformed ∷ lines) h k = tt
latest_of-OwnLatest hash (some j) (malformed ∷ lines) h k = h
latest_of-OwnLatest hash none (not_utf8 ∷ lines) h k = tt
latest_of-OwnLatest hash (some j) (not_utf8 ∷ lines) h k = tt

ending-OwnLines :
    (hash : String) (c : Option CutLine) → OwnEnding hash c → OwnLines hash (ending_lines c)
ending-OwnLines hash none h = tt
ending-OwnLines hash (some c) h = (h, tt)

pub latest-OwnLatest :
    (hash : String) (journal : Option JournalFile)
    → OwnJournal hash journal
    → OwnLatest hash (latest_entry journal)
unfolding read_latest_journal
latest-OwnLatest hash none h = tt
latest-OwnLatest hash (some file) h = latest_of-OwnLatest hash none (all_lines file) tt (
    OwnLines-append hash file.lines (ending_lines file.ending) h.lines
      (ending-OwnLines hash file.ending h.ending))

joined-OwnLine :
    (hash : String) (j : DeploymentJournal) (c : Option CutLine)
    → IsOwn hash j
    → OwnLine hash (joined j c)
joined-OwnLine hash j none own = own
joined-OwnLine hash j (some cut) own = tt
joined-OwnLine hash j (some cut_in_character) own = tt
joined-OwnLine hash j (some (without_newline i)) own = tt

joined_in_part-OwnLine :
    (hash : String) (j : DeploymentJournal) (c : CutLine) (e : Option CutLine)
    → IsOwn hash j
    → OwnLine hash (cut_line (joined_in_part j c e))
joined_in_part-OwnLine hash j cut none own = tt
joined_in_part-OwnLine hash j cut_in_character none own = tt
joined_in_part-OwnLine hash j (without_newline i) none own = own
joined_in_part-OwnLine hash j cut (some cut) own = tt
joined_in_part-OwnLine hash j cut (some cut_in_character) own = tt
joined_in_part-OwnLine hash j cut (some (without_newline i)) own = tt
joined_in_part-OwnLine hash j cut_in_character (some cut) own = tt
joined_in_part-OwnLine hash j cut_in_character (some cut_in_character) own = tt
joined_in_part-OwnLine hash j cut_in_character (some (without_newline i)) own = tt
joined_in_part-OwnLine hash j (without_newline k) (some cut) own = tt
joined_in_part-OwnLine hash j (without_newline k) (some cut_in_character) own = tt
joined_in_part-OwnLine hash j (without_newline k) (some (without_newline i)) own = tt

file_of-OwnFile :
    (hash : String) (journal : Option JournalFile)
    → OwnJournal hash journal
    → OwnFile hash (file_of journal)
file_of-OwnFile hash none h = record { lines = tt; ending = tt }
file_of-OwnFile hash (some file) h = h

pub appended-OwnFile :
    (hash : String) (j : DeploymentJournal) (journal : Option JournalFile)
    → IsOwn hash j
    → OwnJournal hash journal
    → OwnFile hash (appended j (file_of journal))
appended-OwnFile hash j journal own h =
    let f = file_of-OwnFile hash journal h in
    let file = file_of journal in
    record {
      lines =
          OwnLines-append hash file.lines (joined j file.ending ∷ []) f.lines
            (joined-OwnLine hash j file.ending own, tt);
      ending = tt;
    }

pub partly-OwnJournal :
    (hash : String) (j : DeploymentJournal) (c : Option CutLine) (journal : Option JournalFile)
    → IsOwn hash j
    → OwnJournal hash journal
    → OwnJournal hash (partly j c journal)
partly-OwnJournal hash j none journal own h = h
partly-OwnJournal hash j (some c) journal own h =
    let f = file_of-OwnFile hash journal h in
    record {
      lines = f.lines;
      ending = joined_in_part-OwnLine hash j c (file_of journal).ending own;
    }
