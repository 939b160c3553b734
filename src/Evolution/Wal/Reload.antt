-- ===== src/Evolution/Wal/Reload.antt =====
-- What a log that is opened again holds.
use pads_v.Common.{
  ℕ, ◌≡◌, ◌≢◌, refl, String, true, none, some, [], ◌∷◌, ◌++◌, arith, ◌∙◌, ap, ap₂, Option-cases,
  Bool-cases, inl, inr, eq_iff, ◌==◌,
}
use pads_v.Common.Int.{ℤ}
use pads_v.Evolution.File.{
  File, Lines, Disk, fits, scan_error, write_line, written, sync_failed, write_failed, write_with,
  write_line_ended,
}
use pads_v.Evolution.Types.{Mode, Codec, IsFaithful}
use pads_v.Evolution.Wal.{
  Entry, Wal, Digest, append, load_from_disk, flush_entry, new_entry, open_wal,
}

module _ {F : Type 0} (codec : Codec (Entry F)) where
  load_from_disk-append :
      (xs ys : Lines)
      → scan_error xs ≡ none
      → load_from_disk codec (xs ++ ys) ≡ load_from_disk codec xs ++ load_from_disk codec ys
  unfolding load_from_disk scan_error
  load_from_disk-append [] ys h = refl
  load_from_disk-append (x ∷ xs) ys h = ground (arith, load_from_disk-append xs ys)

  -- Memory and file agree: every line of the file is ended and short enough to be scanned, and the
  -- file, read again, gives the entries in memory.
  abbrev pub IsSynced : Wal F → Type 0
  IsSynced w =
      (file : File) × (w.file ≡ some file)
      × (file.torn ≡ "")
      × (scan_error file.lines ≡ none)
      × (load_from_disk codec file.lines ≡ w.entries)

write_with_fine :
    (disk : Disk) (line : String) (file : File)
    → (write_with disk line file).1 ≡ none
    → (write_with disk line file).0 ≡ write_line line file
unfolding write_with
write_with_fine written line file h = refl
write_with_fine sync_failed line file h = absurd (cc)
write_with_fine (write_failed count) line file h = absurd (cc)

flush_entry_fine :
    {F : Type 0} (codec : Codec (Entry F)) (disk : Disk) (file : File) (e : Entry F)
    → (flush_entry codec disk (some file) e).1 ≡ none
    → (line : String) × (codec.marshal e ≡ some line)
      × ((flush_entry codec disk (some file) e).0 ≡ some (write_line line file))
unfolding flush_entry
flush_entry_fine codec disk file e h = elim (Option-cases (codec.marshal e)) [
  | inl refused ↦ absurd (ground arith)
  | inr (line, encoded) ↦ (
    line,
    encoded,
    rw (encoded, flush_entry)
        (ap some (write_with_fine disk line file (rw (encoded, flush_entry) at h))),
  )
]

load_line :
    {F : Type 0} (codec : Codec (Entry F)) (line : String) (e : Entry F)
    → codec.unmarshal line ≡ some e
    → line ≢ ""
    → fits line ≡ true
    → load_from_disk codec (line ∷ []) ≡ e ∷ []
unfolding load_from_disk
load_line codec line e read filled short = elim (Bool-cases (line == "")) [
  | inl empty ↦ absurd (filled ((eq_iff line "").0 empty))
  | inr other ↦ rw (short, other, read) refl
]

scan_error-append : (xs ys : Lines) → scan_error xs ≡ none → scan_error (xs ++ ys) ≡ scan_error ys
unfolding scan_error
scan_error-append [] ys h = refl
scan_error-append (x ∷ xs) ys h = ground (arith, scan_error-append xs ys)

scan_error_one : (line : String) → fits line ≡ true → scan_error (line ∷ []) ≡ none
unfolding scan_error
scan_error_one line short = rw short refl

-- Let the codec read back what it writes and write no empty line, and let every line of the file be
-- ended and short enough to be scanned, the appended one included. Then an append without an error to
-- a WAL whose file gives its entries leaves, in memory, the entries and the returned one behind them,
-- the WAL that is opened on the file is the same, and the same holds of that file, for a next append.
pub append-IsSynced :
    {F : Type 0} (codec : Codec (Entry F)) (digest : Digest F) (now : ℕ) (disk : Disk) (w : Wal F)
    (candidate current : ℤ) (weight : F) (mode : Mode)
    → IsFaithful codec
    → ((e : Entry F) → codec.marshal e ≢ some "")
    → IsSynced codec w
    → (append codec digest now disk w candidate current weight mode).2 ≡ none
    → ((line : String)
        → codec.marshal (append codec digest now disk w candidate current weight mode).1 ≡ some line
        → fits line ≡ true)
    → let (w', entry, _) = append codec digest now disk w candidate current weight mode in
      (w'.entries ≡ w.entries ++ entry ∷ []) × (open_wal codec w'.file ≡ w') × IsSynced codec w'
unfolding append open_wal
append-IsSynced codec digest now disk w candidate current weight mode faithful nonempty
      (file, opened, whole, short, same) fine short_line =
    let entry = new_entry codec digest now w candidate current weight mode in
    let (line, encoded, grown) = flush_entry_fine codec disk file entry (rw opened at fine) in
    let fit = short_line line encoded in
    let reload : load_from_disk codec (file.lines ++ line ∷ []) ≡ w.entries ++ entry ∷ [] =
      load_from_disk-append codec file.lines (line ∷ []) short
      ∙ ap₂ ◌++◌ same (
          load_line codec line entry (faithful.read_back entry line encoded)
            (λ e. nonempty entry (rw (← e) encoded)) fit) in
    let after : File = record { lines = file.lines ++ line ∷ []; torn = "" } in
    let held : (flush_entry codec disk w.file entry).0 ≡ some after =
      ap (λ o. (flush_entry codec disk o entry).0) opened
      ∙ (grown ∙ ap some (write_line_ended line file whole)) in
    (
      refl,
      rw held (ap (λ es. record { entries = es; file = some after }) reload),
      (
        after,
        held,
        refl,
        scan_error-append file.lines (line ∷ []) short ∙ scan_error_one line fit,
        reload,
      ),
    )
