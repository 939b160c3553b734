-- ===== src/Adaptive/Samples.antt =====
-- A loop on an oracle of two runs, which its first attempt does not reach and its second does.
use pads_v.Common.{ℕ, ◌≤◌, ◌≡◌, refl, String, some, List, [], ◌++◌, map, ok}
use pads_v.Common.Int.{pos}
use pads_v.Common.Sorting.{sort}
use pads_v.Common.Table.{lookup, insert}
use pads_v.Graph.Kahn.{release}
use pads_v.Ci.Causal.{instrument_events, instrument_from, compute_causal_id, get_phase}
use pads_v.Ci.Causal.Divergence.{locate_divergence, locate_from, diverge}
use pads_v.Ci.Causal.Divergence.First.{compared}
use pads_v.Ci.Jobs.{needs_of}
use pads_v.Ci.JobOrder.{resolve_job_order}
use pads_v.Ci.Expansion.{expand}
use pads_v.Ci.Plan.{build_dag}
use pads_v.Ci.Plan.Samples.{one_job}
use pads_v.Ci.Verify.{read_wal_file}
use pads_v.Ci.Verify.Samples.{formats, machine, log, event_of}
use pads_v.Dag.Nodes.{CanonicalEvent}
use pads_v.Dag.Run.{run}
use pads_v.Adaptive.{run_loop_v2, retries}
use pads_v.Adaptive.Converged.{Extends, run_loop_v2-ok}

abbrev short : ℕ → String
short n = "0"

second_agrees :
    run_loop_v2 short formats (λ attempt. machine) 1 (pos 0) (log ++ log) [] (some one_job)
    ≡ ok (2, log ++ log)
unfolding run_loop_v2 instrument_events instrument_from compute_causal_id get_phase
    locate_divergence locate_from diverge event_of build_dag run sort lookup release insert
    resolve_job_order needs_of expand
second_agrees = refl

run_loop_v2-ok_example :
    (1 ≤ 2)
    × (2 ≤ retries (pos 0))
    × Extends [] (log ++ log)
    × ((oracle current : List CanonicalEvent) × (read_wal_file formats (log ++ log) ≡ ok oracle)
        × (read_wal_file formats (log ++ log) ≡ ok current)
        × (map compared (instrument_events short oracle)
            ≡ map compared (instrument_events short current)))
run_loop_v2-ok_example =
    run_loop_v2-ok short formats (λ attempt. machine) 1 (pos 0) (log ++ log) [] (some one_job) 2
      (log ++ log) second_agrees
