-- ===== src/Evolution/Queue.antt =====
-- internal/policy/evolution/event_queue.go: an append-only file of events, one line each, and the
-- position in bytes up to which it was read.
pub mod Reads
use Prim.Native.String.{len, slice}
use pads_v.Common.{
  ℕ, zero, suc, ◌+◌, String, Bool, true, false, Option, none, some, List, [], ◌∷◌, ◌++◌,
  if◌then◌else◌, ◌-◌, eqb, ltb,
}
use pads_v.Common.Int.{ℤ}
use pads_v.Common.Table.{Table}
use pads_v.Evolution.Types.{Mode, Codec}
use pads_v.Evolution.File.{
  File, Lines, Disk, IoError, marshal_error, open_error, write_with, fits, max_line, scanned,
  scan_error,
}
use pads_v.Evolution.Wal.{load_all, load_file}

pub record QueueEvent (F : Type 0) : Type 0 where
  pub id : String
  pub type : String
  pub candidate : ℤ
  pub current : ℤ
  pub weight : F
  pub mode : Mode
  pub metadata : Table String

pub record EventQueue : Type 0 where
  pub file : File
  pub offset : ℕ
  pub is_open : Bool

-- A file that is there is opened at its start.
unfoldable pub new_event_queue : File → EventQueue
new_event_queue file = record { file = file; offset = 0; is_open = true }

unfoldable pub bytes : Lines → ℕ
bytes [] = 0
bytes (line ∷ lines) = (len line + 1) + bytes lines

abbrev pub read_offset : EventQueue → ℕ
read_offset q = q.offset

unfoldable pub size : EventQueue → ℕ
unfolding bytes
size q = bytes q.file.lines + len q.file.torn

-- Seek: what stands behind the first bytes of a file.
unfoldable pub seek : ℕ → Lines → (torn : String) → File
seek n [] torn =
    if eqb n 0
    then record { lines = []; torn = torn }
    else record { lines = []; torn = slice torn n (len torn) }
seek n (line ∷ lines) torn =
    let rest = seek (n - (len line + 1)) lines torn in
    if eqb n 0
    then record { lines = line ∷ lines; torn = torn }
    else if ltb (len line) n
    then rest
    else record { lines = slice line n (len line) ∷ lines; torn = torn }

-- How many bytes the scanner has read when it stops: all, or, of a line that is too long, as many as
-- its buffer holds.
unfoldable pub reach : Lines → (torn : String) → ℕ
reach [] torn = if fits torn then len torn else max_line
reach (line ∷ lines) torn =
    let rest = reach lines torn in if fits line then (len line + 1) + rest else max_line

module _ {F : Type 0} (codec : Codec (QueueEvent F)) where
  -- The error is that of the marshalling, the write or the sync.
  unfoldable pub enqueue : Disk → EventQueue → QueueEvent F → EventQueue × Option IoError
  unfolding write_with
  enqueue disk q e = elim (codec.marshal e) [
    | none ↦ (q, some marshal_error)
    | some line ↦
        let (file', failed) = write_with disk line q.file in (record q { file = file' }, failed)
  ]

  -- LoadAll
  unfoldable pub load_events : EventQueue → List (QueueEvent F) × Option IoError
  unfolding load_file
  load_events q = load_file codec q.file

  -- From the offset to where the scanner stops; lines that do not parse are skipped.
  unfoldable pub read_from : EventQueue → EventQueue × List (QueueEvent F) × Option IoError
  unfolding load_file seek reach
  read_from q =
      let rest = seek q.offset q.file.lines q.file.torn in
      let (events, failed) = load_file codec rest in
      if q.is_open
      then (record q { offset = q.offset + reach rest.lines rest.torn }, events, failed)
      else (q, [], some open_error)
