-- ===== src/Evolution/Queue/Reads.antt =====
-- Calls on the queue of internal/policy/evolution/event_queue.go, and what they read.
use mathlib.Core.List.{append_assoc, append-nil}
use Prim.Native.String.{len}
use pads_v.Common.{
  ◌+◌, ◌-◌, ◌≡◌, refl, sym, ap, ap₂, subst, ◌∙◌, String, true, false, none, some, List, [], ◌∷◌,
  ◌++◌, arith, Option-cases, inl, inr, ◌⊎◌, All, ltb, eqb,
}
use pads_v.Evolution.Types.{Codec}
use pads_v.Evolution.File.{
  File, Lines, Disk, written, sync_failed, write_failed, write_with, fits, scan_error,
  write_line_ended, write_part_nothing,
}
use pads_v.Evolution.Wal.{load_all, load_file}
use pads_v.Evolution.Queue.{
  QueueEvent, EventQueue, new_event_queue, enqueue, read_from, bytes, seek, reach,
}

-- A call on the queue: of a producer, with what the disk does, or of the reader.
pub data Action (F : Type 0) : Type 0 where
  push : Disk → QueueEvent F → Action F
  poll : Action F

bytes-append : (xs ys : Lines) → bytes (xs ++ ys) ≡ bytes xs + bytes ys
unfolding bytes
bytes-append [] ys = omega arith
bytes-append (x ∷ xs) ys = omega (arith, bytes-append xs ys)

seek-bytes : (xs ys : Lines) → seek (bytes xs) (xs ++ ys) "" ≡ record { lines = ys; torn = "" }
unfolding seek bytes
seek-bytes [] [] = refl
seek-bytes [] (y ∷ ys) = refl
seek-bytes (x ∷ xs) ys =
    let some_bytes : eqb ((len x + 1) + bytes xs) 0 ≡ false = ground arith in
    let behind : ltb (len x) ((len x + 1) + bytes xs) ≡ true = ground arith in
    let left : ((len x + 1) + bytes xs) - (len x + 1) ≡ bytes xs = omega arith in
    rw (some_bytes, behind, left) (seek-bytes xs ys)

reach-bytes : (lines : Lines) → scan_error lines ≡ none → reach lines "" ≡ bytes lines
unfolding reach bytes scan_error
reach-bytes [] h = refl
reach-bytes (x ∷ xs) h = ground (arith, reach-bytes xs)

scan_error-behind : (xs ys : Lines) → scan_error (xs ++ ys) ≡ none → scan_error ys ≡ none
unfolding scan_error
scan_error-behind [] ys h = h
scan_error-behind (x ∷ xs) ys h = ground (arith, scan_error-behind xs ys)

scan_error-snoc :
    (xs : Lines) (y : String)
    → scan_error xs ≡ none
    → fits y ≡ true
    → scan_error (xs ++ y ∷ []) ≡ none
unfolding scan_error
scan_error-snoc [] y h short = rw short refl
scan_error-snoc (x ∷ xs) y h short = ground (arith, scan_error-snoc xs y)

load_all-append :
    {A : Type 0} (codec : Codec A) (xs ys : Lines)
    → scan_error (xs ++ ys) ≡ none
    → load_all codec (xs ++ ys) ≡ load_all codec xs ++ load_all codec ys
unfolding load_all scan_error
load_all-append codec [] ys h = refl
load_all-append codec (x ∷ xs) ys h = ground (arith, load_all-append codec xs ys)

-- A write that does not stop within its line.
abbrev IsWhole : Disk → Type 0
IsWhole written = Unit
IsWhole sync_failed = Unit
IsWhole (write_failed count) = count ≡ 0

module _ {F : Type 0} (codec : Codec (QueueEvent F)) where
  -- The queue after the calls, and all the events that they read.
  unfoldable pub play : EventQueue → List (Action F) → EventQueue × List (QueueEvent F)
  play q [] = (q, [])
  play q (push disk e ∷ actions) = play (enqueue codec disk q e).0 actions
  play q (poll ∷ actions) =
      let (q', events, failed) = read_from codec q in
      let (last, later) = play q' actions in (last, events ++ later)

  -- A push whose write does not stop within its line, and whose line is short enough to be scanned.
  abbrev pub IsOrderly : Action F → Type 0
  IsOrderly (push disk e) =
      IsWhole disk × ((line : String) → codec.marshal e ≡ some line → fits line ≡ true)
  IsOrderly poll = Unit

  -- Every line of the file is ended and can be scanned, and the offset stands behind the first of
  -- them, of which the events are those that were read.
  abbrev pub HasRead : List (QueueEvent F) → EventQueue → Type 0
  HasRead events q =
      (q.is_open ≡ true)
      × (q.file.torn ≡ "")
      × (scan_error q.file.lines ≡ none)
      × ((done todo : Lines) × (q.file.lines ≡ done ++ todo)
          × (q.offset ≡ bytes done)
          × (events ≡ load_all codec done))

  write_with-cases :
      (disk : Disk) (line : String) (file : File)
      → IsWhole disk
      → file.torn ≡ ""
      → ((write_with disk line file).0 ≡ file)
        ⊎ ((write_with disk line file).0 ≡ record { lines = file.lines ++ line ∷ []; torn = "" })
  unfolding write_with
  write_with-cases written line file h ended = inr (write_line_ended line file ended)
  write_with-cases sync_failed line file h ended = inr (write_line_ended line file ended)
  write_with-cases (write_failed count) line file h ended =
      rw h (inl (write_part_nothing line file ended))

  enqueue-HasRead :
      (disk : Disk) (q : EventQueue) (e : QueueEvent F) (events : List (QueueEvent F))
      → IsOrderly (push disk e)
      → HasRead events q
      → HasRead events (enqueue codec disk q e).0
  unfolding enqueue
  enqueue-HasRead disk q e events (whole, short) h = elim (Option-cases (codec.marshal e)) [
    | inl refused ↦ rw (refused, enqueue) h
    | inr (line, text) ↦
        let (opened, ended, fine, (done, todo, split, at, read)) = h in
        elim (write_with-cases disk line q.file whole ended) [
          | inl same ↦ rw (text, enqueue, same) h
          | inr grown ↦
              rw (text, enqueue, grown)
                (
                  opened,
                  refl,
                  scan_error-snoc q.file.lines line fine (short line text),
                  (
                    done,
                    todo ++ line ∷ [],
                    ap (λ l. l ++ line ∷ []) split ∙ append_assoc done todo (line ∷ []),
                    at,
                    read,
                  ),
                )
        ]
  ]

  poll-HasRead :
      (q : EventQueue) (events : List (QueueEvent F))
      → HasRead events q
      → HasRead (events ++ (read_from codec q).1) (read_from codec q).0
  unfolding read_from load_file
  poll-HasRead q events (opened, ended, fine, (done, todo, split, at, read)) =
      let fine_all : scan_error (done ++ todo) ≡ none =
        subst (λ l. scan_error l ≡ none) split fine in
      let rest : seek q.offset q.file.lines q.file.torn ≡ record { lines = todo; torn = "" } =
        rw (at, split, ended) (seek-bytes done todo) in
      rw (opened, rest)
        (
          refl,
          ended,
          fine,
          (
            done ++ todo,
            [],
            split ∙ sym (append-nil (done ++ todo)),
            ap₂ ◌+◌ at (reach-bytes todo (scan_error-behind done todo fine_all))
                ∙ sym (bytes-append done todo),
            ap (λ l. l ++ load_all codec todo) read
                ∙ sym (load_all-append codec done todo fine_all),
          ),
        )

  play-HasRead :
      (q : EventQueue) (actions : List (Action F)) (events : List (QueueEvent F))
      → All IsOrderly actions
      → HasRead events q
      → HasRead (events ++ (play q actions).1) (play q actions).0
  unfolding play
  play-HasRead q [] events orderly h = rw (append-nil events) h
  play-HasRead q (push disk e ∷ actions) events (first, rest) h =
      play-HasRead (enqueue codec disk q e).0 actions events rest
        (enqueue-HasRead disk q e events first h)
  play-HasRead q (poll ∷ actions) events (first, rest) h =
      let now = (read_from codec q).1 in
      let later = (play (read_from codec q).0 actions).1 in
      rw (← append_assoc events now later)
        (play-HasRead (read_from codec q).0 actions (events ++ now) rest (poll-HasRead q events h))

  -- Let the file that a queue is opened on have ended lines that can all be scanned, and let no write
  -- stop within its line, nor any line that is pushed be too long for the scanner. Then, whatever
  -- producers and the reader do, in whatever order, the lines stay ended, and the events that were
  -- read are those of the lines before the offset: each once, in order.
  pub play_once :
      (file : File) (actions : List (Action F))
      → file.torn ≡ ""
      → scan_error file.lines ≡ none
      → All IsOrderly actions
      → (let (last, events) = play (new_event_queue file) actions in HasRead events last)
  unfolding new_event_queue load_all bytes
  play_once file actions ended fine orderly =
      play-HasRead (new_event_queue file) actions [] orderly
        (refl, ended, fine, ([], file.lines, refl, refl, refl))
