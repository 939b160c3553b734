-- ===== src/Ci/Verify/Samples.antt =====
-- A log that is verified twice.
use Prim.Native.String.{◌++◌ as str_append}
use pads_v.Common.{
  ◌≡◌, ◌↔◌, refl, String, true, false, Option, none, some, List, [], ◌∷◌, map, ok, if◌then◌else◌,
  ◌==◌, All,
}
use pads_v.Common.Sorting.{sort}
use pads_v.Common.Table.{lookup, insert}
use pads_v.Graph.Kahn.{release}
use pads_v.Ci.Jobs.{needs_of}
use pads_v.Ci.JobOrder.{resolve_job_order}
use pads_v.Ci.Expansion.{expand}
use pads_v.Ci.Plan.{build_dag}
use pads_v.Ci.Plan.Samples.{one_job, quiet, events}
use pads_v.Ci.Verify.{Formats, Machine, ReplayResult, read_wal_file, verify_replay}
use pads_v.Ci.Verify.Repeated.{IsReadable, verify_replay-earlier}
use pads_v.Dag.Nodes.{CanonicalEvent}
use pads_v.Dag.Run.{run}

abbrev line_of : CanonicalEvent → String
line_of e = str_append e.node_id (str_append " " e.type)

unfoldable pub event_of : List CanonicalEvent → String → Option CanonicalEvent
event_of [] line = none
event_of (e ∷ known) line =
    let rest = event_of known line in if line_of e == line then some e else rest

abbrev pub formats : Formats
formats = record {
  write_event = λ e. some (line_of e);
  read_event = event_of events;
  read_legacy = λ line. none;
  hash_text = λ text. text;
  hash_file = λ lines. "";
}

abbrev pub machine : Machine
machine = record { sha = λ text. text; hit = λ key. false; shell = quiet }

abbrev pub log : List String
log = map line_of events

ran : run quiet (build_dag (λ text. text) (λ key. false) one_job).0 1 ≡ ok events
unfolding build_dag run sort lookup release insert resolve_job_order needs_of expand
ran = refl

logged : read_wal_file formats log ≡ ok events
unfolding read_wal_file event_of build_dag run sort lookup release insert resolve_job_order needs_of
    expand
logged = refl

written :
    (e : CanonicalEvent)
    → event_of events (line_of e) ≡ some e
    → (line_of e == "") ≡ false
    → IsReadable formats e
written e read full = record { line = line_of e; writes = refl; fills = full; reads = read }

readable : All (IsReadable formats) events
unfolding event_of build_dag run sort lookup release insert resolve_job_order needs_of expand
readable = (
  written _ refl refl,
  (written _ refl refl, (written _ refl refl, (written _ refl refl, (written _ refl refl, tt)))),
)

verify_replay-earlier_example :
    (result : ReplayResult) × (verify_replay formats machine log log one_job ≡ ok result)
    × (result.is_ok ≡ true ↔ events ≡ [])
verify_replay-earlier_example =
    verify_replay-earlier formats machine log log one_job events events readable ran logged logged
