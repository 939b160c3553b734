-- ===== src/Evolution/Wal.antt =====
-- internal/policy/evolution/wal.go, event_store.go, wal_persist.go and wal_bridge.go. What the disk answers is an argument of each call; the time is, too.
pub mod Chain
pub mod Reload
use pads_v.Common.{
  ℕ, ◌≡◌, Bool, true, false, not, String, Option, none, some, List, [], ◌∷◌, ◌++◌, arith, eqb,
  if◌then◌else◌, ◌==◌, length,
}
use pads_v.Common.Int.{ℤ}
use pads_v.Evolution.File.{
  File, Lines, Disk, IoError, write_with, write_line, write_part, fits, scanned, scan_error,
  marshal_error, write_error, open_error,
}
use pads_v.Evolution.Types.{Mode, Codec, Event}

pub record Entry (F : Type 0) : Type 0 where
  pub candidate_score : ℤ
  pub current_score : ℤ
  pub weight : F
  pub mode : Mode
  pub timestamp : ℕ
  pub hash : String
  pub prev_hash : String

-- `entryWithoutHash`, and the digest of its JSON (crypto/sha256).
pub record Unhashed (F : Type 0) : Type 0 where
  pub candidate_score : ℤ
  pub current_score : ℤ
  pub weight : F
  pub mode : Mode
  pub timestamp : ℕ
  pub prev_hash : String

abbrev pub Digest : Type 0 → Type 0
Digest F = Unhashed F → String

pub record Wal (F : Type 0) : Type 0 where
  pub entries : List (Entry F)
  -- `none` where there is no path, or the file could not be opened
  pub file : Option File

unfoldable pub compute_hash : {F : Type 0} → Digest F → Entry F → String
compute_hash digest e = digest (record {
  candidate_score = e.candidate_score;
  current_score = e.current_score;
  weight = e.weight;
  mode = e.mode;
  timestamp = e.timestamp;
  prev_hash = e.prev_hash;
})

unfoldable pub last_entry : {F : Type 0} → List (Entry F) → Option (Entry F)
last_entry [] = none
last_entry (e ∷ []) = some e
last_entry (e ∷ f ∷ es) = last_entry (f ∷ es)

abbrev pub last_hash : {F : Type 0} → List (Entry F) → String
last_hash es = elim (last_entry es) [ none ↦ "" | some e ↦ e.hash ]

module _ {F : Type 0} (codec : Codec (Entry F)) where
  -- flushEntryLocked
  unfoldable pub flush_entry : Disk → Option File → Entry F → Option File × Option IoError
  unfolding write_with
  flush_entry disk none e = (none, none)
  flush_entry disk (some file) e = elim (codec.marshal e) [
    | none ↦ (some file, some marshal_error)
    | some line ↦ let (file', failed) = write_with disk line file in (some file', failed)
  ]

  unfoldable pub new_entry : Digest F → ℕ → Wal F → ℤ → ℤ → F → Mode → Entry F
  unfolding compute_hash last_entry
  new_entry digest now w candidate current weight mode =
      let draft : Entry F = record {
        candidate_score = candidate;
        current_score = current;
        weight = weight;
        mode = mode;
        timestamp = now;
        hash = "";
        prev_hash = last_hash w.entries;
      } in
      record draft { hash = compute_hash digest draft }

  -- The entry is kept in memory also where the flush fails.
  unfoldable pub append :
      Digest F → ℕ → Disk → Wal F → ℤ → ℤ → F → Mode → Wal F × Entry F × Option IoError
  unfolding flush_entry new_entry
  append digest now disk w candidate current weight mode =
      let entry = new_entry digest now w candidate current weight mode in
      let (file', failed) = flush_entry disk w.file entry in
      (record { entries = w.entries ++ entry ∷ []; file = file' }, entry, failed)

  -- Lines that are empty or do not parse are skipped; the scanner stops at one that is too long, its
  -- error dropped.
  unfoldable pub load_from_disk : Lines → List (Entry F)
  load_from_disk [] = []
  load_from_disk (line ∷ lines) =
      let rest = load_from_disk lines in
      if not (fits line)
      then []
      else if line == ""
      then rest
      else elim (codec.unmarshal line) [ none ↦ rest | some e ↦ e ∷ rest ]

  -- NewWAL on a file that is there, or none
  unfoldable pub open_wal : Option File → Wal F
  unfolding load_from_disk
  open_wal none = record { entries = []; file = none }
  open_wal (some file) = record { entries = load_from_disk (scanned file); file = some file }

-- What a write without a `Sync` comes to: it fails after some bytes of its line, or it does not.
abbrev pub Written : Type 0
Written = Option ℕ

-- EventStore and WALStore: a file that is opened for each call. `opened` is false where the
-- directory or the file could not be.
module _ {A : Type 0} (codec : Codec A) where
  unfoldable pub store_append : (opened : Bool) → Written → File → A → File × Option IoError
  store_append opened short file a =
      if opened
      then elim (codec.marshal a) [
        | none ↦ (file, some marshal_error)
        | some line ↦ elim short [
          | none ↦ (write_line line file, none)
          | some count ↦ (write_part count line file, some write_error)
        ]
      ]
      else (file, some open_error)

  -- The loop of LoadAll and Replay over the lines
  unfoldable pub load_all : Lines → List A
  load_all [] = []
  load_all (line ∷ lines) =
      let rest = load_all lines in
      if fits line then elim (codec.unmarshal line) [ none ↦ rest | some a ↦ a ∷ rest ] else []

  -- LoadAll on a file that is there
  unfoldable pub load_file : File → List A × Option IoError
  unfolding load_all scan_error
  load_file file = (load_all (scanned file), scan_error (scanned file))

-- WALBridge.Append: to the WAL, and then to the store of the same entries.
unfoldable pub bridge_append :
    {F : Type 0}
    → Codec (Entry F)
    → Digest F
    → ℕ
    → Disk
    → (opened : Bool) → Written
    → Wal F
    → File
    → ℤ
    → ℤ
    → F
    → Mode
    → Wal F × File × Entry F × Option IoError
unfolding append store_append
bridge_append codec digest now disk opened short mem file candidate current weight mode =
    let (mem', entry, failed) = append codec digest now disk mem candidate current weight mode in
    elim failed [
      | some e ↦ (mem', file, entry, some e)
      | none ↦
          let (file', stored) = store_append codec opened short file entry in
          (mem', file', entry, stored)
    ]
