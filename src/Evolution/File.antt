-- ===== src/Evolution/File.antt =====
-- A log file as os.File writes it and bufio.Scanner reads it: its lines that are ended, and what
-- stands behind the last newline.
use Prim.Native.String.{◌++◌ as str_append, len, slice}
use Prim.Native.String.append
use text.Mathlib.TextPositions.{slice-zero-zero}
use pads_v.Common.{
  ◌≡◌, ap, ap₂, ◌∙◌, sym, ℕ, Bool, String, Option, none, some, List, [], ◌∷◌, ◌++◌, if◌then◌else◌,
  ltb, ◌==◌,
}

abbrev pub Lines : Type 0
Lines = List String

pub record File : Type 0 where
  pub lines : Lines
  -- what a write left that stopped within a line
  pub torn : String

abbrev pub empty_file : File
empty_file = record { lines = []; torn = "" }

-- What a write and the `Sync` behind it come to. A write that fails has put some bytes of its line
-- into the file, maybe none.
pub data Disk : Type 0 where
  written sync_failed : Disk
  write_failed : (count : ℕ) → Disk

pub data IoError : Type 0 where
  marshal_error write_error sync_error open_error too_long : IoError

-- The line and a newline, behind what is there.
abbrev pub write_line : String → File → File
write_line line file = record { lines = file.lines ++ str_append file.torn line ∷ []; torn = "" }

abbrev pub write_part : ℕ → String → File → File
write_part count line file = record {
  lines = file.lines;
  torn = str_append file.torn (slice line 0 count);
}

unfoldable pub write_with : Disk → String → File → File × Option IoError
write_with written line file = (write_line line file, none)
write_with sync_failed line file = (write_line line file, some sync_error)
write_with (write_failed count) line file = (write_part count line file, some write_error)

-- bufio.MaxScanTokenSize: a line and its newline have to fit.
abbrev pub max_line : ℕ
max_line = 65536

abbrev pub fits : String → Bool
fits line = ltb (len line) max_line

-- What the scanner goes through: the last line need not be ended.
abbrev pub scanned : File → Lines
scanned file = if file.torn == "" then file.lines else file.lines ++ file.torn ∷ []

-- scanner.Err(): it stops at a line that is too long.
unfoldable pub scan_error : Lines → Option IoError
scan_error [] = none
scan_error (line ∷ lines) = let rest = scan_error lines in if fits line then rest else some too_long

-- A file that ends in a newline gets the line as it is, ...
pub write_line_ended :
    (line : String) (file : File)
    → file.torn ≡ ""
    → write_line line file ≡ record { lines = file.lines ++ line ∷ []; torn = "" }
write_line_ended line file ended =
    ap (λ text. record { lines = file.lines ++ text ∷ []; torn = "" })
      (ap (λ t. str_append t line) ended ∙ append.nil line)

-- ... and stays one where nothing of it is written.
pub write_part_nothing :
    (line : String) (file : File) → file.torn ≡ "" → write_part 0 line file ≡ file
write_part_nothing line file ended =
    ap (λ text. record { lines = file.lines; torn = text })
      (ap₂ str_append ended (slice-zero-zero line) ∙ (append.nil "" ∙ sym ended))
