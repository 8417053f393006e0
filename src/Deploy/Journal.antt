-- ===== src/Deploy/Journal.antt =====
-- The journal of a deployment transaction in frontend/src-tauri/src/deployment.rs: an append-only file
-- with one record to a line, the last complete one of which counts.
use skill_hive.Prelude.{String, Bool, Option, none, some, List, [], ◌∷◌, ◌++◌, ◌⊎◌, inl, inr}

pub data DeploymentPhase : Type 0 where
  intent : DeploymentPhase
  prepared : DeploymentPhase
  old_moved : DeploymentPhase
  activated : DeploymentPhase

pub record DeploymentRequest : Type 0 where
  pub skill_id : String
  pub agent_profile_id : String
  pub snapshot_hash : String
  pub skill_root : String
  pub directory_name : String

pub record DeploymentResult : Type 0 where
  pub transaction_id : String
  pub skill_id : String
  pub agent_profile_id : String
  pub target_path : String
  pub snapshot_hash : String
  pub replaced_existing : Bool

pub record DeploymentJournal : Type 0 where
  pub transaction_id : String
  pub skill_id : String
  pub agent_profile_id : String
  pub snapshot_hash : String
  pub skill_root : String
  pub destination : String
  pub staging : String
  pub backup : String
  pub replaced_existing : Bool
  pub phase : DeploymentPhase

-- `DeploymentJournal::result`
abbrev pub journal_result : DeploymentJournal → DeploymentResult
journal_result j = record {
  transaction_id = j.transaction_id;
  skill_id = j.skill_id;
  agent_profile_id = j.agent_profile_id;
  target_path = j.destination;
  snapshot_hash = j.snapshot_hash;
  replaced_existing = j.replaced_existing;
}

-- `DeploymentError`; what a verification or an input/output error says is left out.
pub data DeploymentError : Type 0 where
  io : DeploymentError
  snapshot : DeploymentError
  verification : DeploymentError
  journal_serialization : DeploymentError
  invalid_request : String → DeploymentError
  invalid_transaction_id : String → DeploymentError
  catalog_ack_rejected : String → DeploymentError
  invalid_directory_name : String → DeploymentError
  invalid_skill_root : String → DeploymentError
  invalid_journal : String → DeploymentError
  unrecoverable_transaction : (transaction_id reason : String) → DeploymentError

-- A line of the file: a record, white space, something that serde rejects, or bytes that are not
-- UTF-8.
pub data JournalLine : Type 0 where
  written : DeploymentJournal → JournalLine
  blank : JournalLine
  malformed : JournalLine
  not_utf8 : JournalLine

-- What a write that was cut short leaves behind the last newline.
pub data CutLine : Type 0 where
  cut : CutLine
  cut_in_character : CutLine
  without_newline : DeploymentJournal → CutLine

pub record JournalFile : Type 0 where
  pub lines : List JournalLine
  pub ending : Option CutLine

abbrev pub cut_line : CutLine → JournalLine
cut_line cut = malformed
cut_line cut_in_character = not_utf8
cut_line (without_newline j) = written j

abbrev pub ending_lines : Option CutLine → List JournalLine
ending_lines none = []
ending_lines (some c) = cut_line c ∷ []

abbrev pub all_lines : JournalFile → List JournalLine
all_lines file = file.lines ++ ending_lines file.ending

-- `for line in reader.lines()`, with the latest record so far.
unfoldable pub latest_of :
    Option DeploymentJournal → List JournalLine → DeploymentError ⊎ DeploymentJournal
latest_of none [] = inl (invalid_journal "no complete journal record")
latest_of (some j) [] = inr j
latest_of latest (written j ∷ lines) = latest_of (some j) lines
latest_of latest (blank ∷ lines) = latest_of latest lines
latest_of none (malformed ∷ lines) = inl journal_serialization
latest_of (some j) (malformed ∷ lines) = inr j
latest_of latest (not_utf8 ∷ lines) = inl io

unfoldable pub read_latest_journal : JournalFile → DeploymentError ⊎ DeploymentJournal
unfolding latest_of
read_latest_journal file = latest_of none (all_lines file)

abbrev pub joined : DeploymentJournal → Option CutLine → JournalLine
joined j none = written j
joined j (some cut) = malformed
joined j (some cut_in_character) = not_utf8
joined j (some (without_newline i)) = malformed

-- A record and a newline behind what the file holds: a line that was cut short swallows the record.
abbrev pub appended : DeploymentJournal → JournalFile → JournalFile
appended j file = record { lines = file.lines ++ joined j file.ending ∷ []; ending = none }

abbrev pub cut_behind : CutLine → CutLine
cut_behind cut_in_character = cut_in_character
cut_behind c = cut

abbrev pub joined_in_part : DeploymentJournal → CutLine → Option CutLine → CutLine
joined_in_part j (without_newline i) none = without_newline j
joined_in_part j c none = c
joined_in_part j c (some cut_in_character) = cut_in_character
joined_in_part j c (some _) = cut_behind c

-- The same write, cut short as `c` says.
abbrev pub appended_in_part : DeploymentJournal → CutLine → JournalFile → JournalFile
appended_in_part j c file = record {
  lines = file.lines;
  ending = some (joined_in_part j c file.ending);
}

abbrev pub empty_journal : JournalFile
empty_journal = record { lines = []; ending = none }
