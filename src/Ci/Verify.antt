-- ===== src/Ci/Verify.antt =====
-- internal/ci/wal.go, scheduler.go, replay_verifier.go and certification/certifier.go, with
-- ReadWALFile of internal/trace: a run writes its events to a log, and a replay is compared with it. A
-- log is the list of its lines, to which a run appends, and the disk does not fail; `Formats` is
-- encoding/json and SHA-256.
pub mod Repeated
pub mod Samples
use pads_v.Common.{
  ℕ, suc, ◌+◌, String, Bool, true, false, not, ◌&&◌, Option, none, some, List, [], ◌∷◌, ◌++◌,
  if◌then◌else◌, eqb, length, ◌==◌, Result, ok, err, ◌>>=◌,
}
use pads_v.Common.Int.{ℤ, pos}
use pads_v.Ci.Jobs.{Jobs}
use pads_v.Ci.Plan.{CacheSnapshot, build_dag}
use pads_v.Dag.Nodes.{Nodes, CanonicalEvent, GraphError}
use pads_v.Dag.Run.{Shell, run}

-- What a line of an older format holds.
pub record LegacyEvent : Type 0 where
  pub type : String
  pub job_id : String
  pub step_id : String
  pub status : String
  pub payload : String

pub record Formats : Type 0 where
  pub write_event : CanonicalEvent → Option String
  pub read_event : String → Option CanonicalEvent
  pub read_legacy : String → Option LegacyEvent
  -- of a text, and of the bytes of a file
  pub hash_text : String → String
  pub hash_file : List String → String

-- What a run works with: the cache, and the commands.
pub record Machine : Type 0 where
  pub sha : String → String
  pub hit : String → Bool
  pub shell : Shell

pub data RunError : Type 0 where
  run_failed : GraphError → RunError
  bad_line : String → RunError

pub record ReplayResult : Type 0 where
  pub is_ok : Bool
  pub original_len : ℕ
  pub replay_len : ℕ
  -- `none` where the source has -1
  pub first_diff : Option ℕ
  pub original_seq : List CanonicalEvent
  pub replay_seq : List CanonicalEvent

pub record Certificate : Type 0 where
  pub wal_hash : String
  pub replay_hash : String
  pub deterministic : Bool

abbrev pub converted : LegacyEvent → CanonicalEvent
converted le = record {
  node_id = "";
  type = le.type;
  job_id = le.job_id;
  step_id = le.step_id;
  status = le.status;
  payload = le.payload;
  time = 0;
}

abbrev after_run : {A : Type 0} → Result GraphError A → Result RunError A
after_run (ok a) = ok a
after_run (err e) = err (run_failed e)

module _ (formats : Formats) where
  -- AppendCanonical for each event: one that cannot be written is left out, its error dropped.
  unfoldable pub append_all : List String → List CanonicalEvent → List String
  append_all lines [] = lines
  append_all lines (e ∷ events) = elim (formats.write_event e) [
    | none ↦ append_all lines events
    | some line ↦ append_all (lines ++ line ∷ []) events
  ]

  -- ReadWALFile
  unfoldable pub read_wal_file : List String → Result RunError (List CanonicalEvent)
  read_wal_file [] = ok []
  read_wal_file (line ∷ lines) =
      let rest = read_wal_file lines in
      if line == "" then rest else elim (formats.read_event line) [
        | some e ↦ rest >>= λ events. ok (e ∷ events)
        | none ↦ elim (formats.read_legacy line) [
          | some le ↦ rest >>= λ events. ok (converted le ∷ events)
          | none ↦ err (bad_line line)
        ]
      ]

  -- MaxParallel <= 0 stands for 4
  abbrev pub parallelism : ℕ → ℕ
  parallelism n = if eqb n 0 then 4 else n

  -- RunWithSnapshot: the log after the run, and the snapshot.
  unfoldable pub run_with_snapshot :
      Machine → ℕ → List String → Jobs → Result RunError (List String) × CacheSnapshot
  unfolding append_all build_dag
  run_with_snapshot machine max_parallel lines jobs =
      let (graph, snapshot) = build_dag machine.sha machine.hit jobs in
      (
        (after_run (run machine.shell graph (parallelism max_parallel)) >>= λ events.
            ok (append_all lines events)),
        snapshot,
      )

  unfoldable pub events_equal : CanonicalEvent → CanonicalEvent → Bool
  events_equal a b =
      (a.type == b.type)
      && (a.job_id == b.job_id)
      && (a.step_id == b.step_id)
      && (a.status == b.status)
      && (formats.hash_text a.payload == formats.hash_text b.payload)

  -- The index of the first difference.
  unfoldable pub first_diff_from : ℕ → List CanonicalEvent → List CanonicalEvent → Option ℕ
  unfolding events_equal
  first_diff_from i (a ∷ original) (b ∷ replay) =
      let rest = first_diff_from (suc i) original replay in
      if events_equal a b then rest else some i
  first_diff_from i original replay = none

  abbrev is_absent : Option ℕ → Bool
  is_absent none = true
  is_absent (some _) = false

  unfoldable pub compare_events : List CanonicalEvent → List CanonicalEvent → ReplayResult
  unfolding first_diff_from
  compare_events original replay =
      let diff = first_diff_from 0 original replay in
      let same_length = eqb (length original) (length replay) in
      record {
        is_ok = same_length && is_absent diff;
        original_len = length original;
        replay_len = length replay;
        first_diff = if same_length then diff else none;
        original_seq = original;
        replay_seq = replay;
      }

  -- ReplayVerifier.Replay: `earlier` is what the file of the replay holds before.
  unfoldable pub verify_replay :
      Machine → (original earlier : List String) → Jobs → Result RunError ReplayResult
  unfolding read_wal_file run_with_snapshot compare_events
  verify_replay machine original earlier jobs = read_wal_file original >>= λ original_events.
      (run_with_snapshot machine 1 earlier jobs).0 >>= λ lines.
      read_wal_file lines >>= λ replay_events. ok (compare_events original_events replay_events)

  -- Certify: also the file of the replay as it is left.
  unfoldable pub certify :
      Machine
      → (original earlier : List String) → Jobs
      → Result RunError (Certificate × List String)
  unfolding run_with_snapshot
  certify machine original earlier jobs = (run_with_snapshot machine 1 earlier jobs).0 >>= λ lines.
      ok (
        record {
          wal_hash = formats.hash_file original;
          replay_hash = formats.hash_file lines;
          deterministic = formats.hash_file original == formats.hash_file lines;
        },
        lines,
      )
