-- ===== src/Ci/Verify/Repeated.antt =====
-- What a replay is compared with, where its file has events of an earlier one.
use mathlib.Core.List.{append-nil, append_assoc}
use pads_v.Common.{
  All, suc, ℕ, ◌≡◌, refl, sym, ap, ◌∙◌, String, true, false, none, some, List, [], ◌∷◌, ◌++◌, arith,
  ◌==◌, Bool-cases, Option-cases, inl, inr, Result, ok, err, ◌>>=◌, length-append, ◌↔◌, ap₂,
}
use pads_v.Common.Count.{==_self}
use pads_v.Dag.Nodes.{CanonicalEvent}
use pads_v.Dag.Run.{run}
use pads_v.Ci.Jobs.{Jobs}
use pads_v.Ci.Plan.{build_dag}
use pads_v.Ci.Verify.{
  Formats, Machine, RunError, ReplayResult, append_all, read_wal_file, run_with_snapshot, converted,
  compare_events, events_equal, first_diff_from, verify_replay,
}

-- An event can be written, to a line that is not empty and reads back as the event.
pub record IsReadable (formats : Formats) (e : CanonicalEvent) : Type 0 where
  pub line : String
  pub writes : formats.write_event e ≡ some line
  pub fills : (line == "") ≡ false
  pub reads : formats.read_event line ≡ some e

abbrev Read : Type 0
Read = Result RunError (List CanonicalEvent)

abbrev both : Read → Read → Read
both a b = a >>= λ x. b >>= λ y. ok (x ++ y)

abbrev behind : CanonicalEvent → Read → Read
behind e a = a >>= λ events. ok (e ∷ events)

both-behind : (e : CanonicalEvent) (a b : Read) → behind e (both a b) ≡ both (behind e a) b
both-behind e (err x) b = refl
both-behind e (ok x) (err y) = refl
both-behind e (ok x) (ok y) = refl

both-none : (b : Read) → b ≡ both (ok []) b
both-none (err y) = refl
both-none (ok y) = refl

module _ (formats : Formats) where
  read_wal_file-append :
      (lines more : List String)
      → read_wal_file formats (lines ++ more)
        ≡ both (read_wal_file formats lines) (read_wal_file formats more)
  unfolding read_wal_file
  read_wal_file-append [] more = both-none (read_wal_file formats more)
  read_wal_file-append (line ∷ lines) more =
      let rest = read_wal_file-append lines more in
      elim (Bool-cases (line == "")) [
        | inl empty ↦ rw (empty, read_wal_file) rest
        | inr full ↦ elim (Option-cases (formats.read_event line)) [
          | inr (e, read) ↦
              rw (full, read, read_wal_file)
                (ap (behind e) rest
                  ∙ both-behind e (read_wal_file formats lines) (read_wal_file formats more))
          | inl other ↦ elim (Option-cases (formats.read_legacy line)) [
            | inr (le, read) ↦
                rw (full, other, read, read_wal_file)
                  (ap (behind (converted le)) rest
                    ∙ both-behind (converted le) (read_wal_file formats lines)
                        (read_wal_file formats more))
            | inl bad ↦ rw (full, other, bad, read_wal_file) refl
          ]
        ]
      ]

  events_equal_same : (e : CanonicalEvent) → events_equal formats e e ≡ true
  unfolding events_equal
  events_equal_same e =
      rw
        (
          ==_self e.type,
          ==_self e.job_id,
          ==_self e.step_id,
          ==_self e.status,
          ==_self (formats.hash_text e.payload),
        )
        refl

  first_diff_from_same :
      (i : ℕ) (events : List CanonicalEvent) → first_diff_from formats i events events ≡ none
  unfolding first_diff_from
  first_diff_from_same i [] = refl
  first_diff_from_same i (e ∷ events) =
      rw (events_equal_same e) (first_diff_from_same (suc i) events)

  read_wal_file_one :
      (e : CanonicalEvent) (f : IsReadable formats e)
      → read_wal_file formats (f.line ∷ []) ≡ ok (e ∷ [])
  unfolding read_wal_file
  read_wal_file_one e f = rw (f.fills, f.reads) refl

  append_all-read :
      (lines : List String) (old events : List CanonicalEvent)
      → All (IsReadable formats) events
      → read_wal_file formats lines ≡ ok old
      → read_wal_file formats (append_all formats lines events) ≡ ok (old ++ events)
  unfolding append_all
  append_all-read lines old [] readable h = h ∙ ap ok (sym (append-nil old))
  append_all-read lines old (e ∷ events) (f, rest) h =
      let line = f.line in
      let grown : read_wal_file formats (lines ++ line ∷ []) ≡ ok (old ++ e ∷ []) =
        read_wal_file-append lines (line ∷ []) ∙ ap₂ both h (read_wal_file_one e f) in
      rw (f.writes, append_all)
        (append_all-read (lines ++ line ∷ []) (old ++ e ∷ []) events rest grown
          ∙ ap ok (append_assoc old (e ∷ []) events))

  compare_events-confirmed :
      (old events : List CanonicalEvent)
      → (compare_events formats events (old ++ events)).is_ok ≡ true ↔ old ≡ []
  unfolding compare_events
  compare_events-confirmed [] events =
      (λ h. refl, λ h. rw (first_diff_from_same 0 events) (ground arith))
  compare_events-confirmed (e ∷ old) events =
      (λ h. absurd (ground (arith, length-append (e ∷ old) events)), λ h. absurd (cc))

  -- Let the jobs run, one node at a time, to the events that the original log reads as, each of which
  -- can be written and reads back from its line. Where the file of the replay reads as some
  -- events of before, the verification returns a result, which calls the replay equal exactly where
  -- there are none of them: a second verification, of the same log, refuses the run that the first one
  -- has confirmed.
  pub verify_replay-earlier :
      (machine : Machine) (original earlier : List String) (jobs : Jobs)
      (old events : List CanonicalEvent)
      → All (IsReadable formats) events
      → run machine.shell (build_dag machine.sha machine.hit jobs).0 1 ≡ ok events
      → read_wal_file formats original ≡ ok events
      → read_wal_file formats earlier ≡ ok old
      → (result : ReplayResult) × (verify_replay formats machine original earlier jobs ≡ ok result)
        × (result.is_ok ≡ true ↔ old ≡ [])
  unfolding verify_replay run_with_snapshot
  verify_replay-earlier machine original earlier jobs old events readable ran first there = (
    compare_events formats events (old ++ events),
    rw (first, ran, append_all-read earlier old events readable there) refl,
    compare_events-confirmed old events,
  )
