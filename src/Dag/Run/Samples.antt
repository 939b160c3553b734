-- ===== src/Dag/Run/Samples.antt =====
-- Runs of small graphs.
use pads_v.Common.{◌≤◌, ◌≡◌, refl, String, List, [], ◌∷◌, ok, arith}
use pads_v.Common.Count.{count, Has, SameItems}
use pads_v.Common.Sorting.{sort}
use pads_v.Common.Table.{keys, lookup}
use pads_v.Graph.Kahn.{release}
use pads_v.Graph.Kahn.Steps.{IsOrdered}
use pads_v.Dag.Nodes.{CanonicalEvent, deps_of}
use pads_v.Dag.Samples.{
  two_nodes, two_nodes-IsUnique, two_nodes-IsKeyed, depth, two_nodes-IsClosed, two_nodes-IsRanked,
  looped, looped-IsUnique, looped-IsKeyed, looped-IsClosed,
}
use pads_v.Dag.Run.{Shell, success, events_of, run, edge_nodes, run_loop}
use pads_v.Dag.Run.Sound.{run-IsOrdered, run_complete, run-drops_self_dependent}

abbrev quiet : Shell
quiet action = success "done"

abbrev two_events : List CanonicalEvent
two_events = events_of quiet two_nodes ("begin" ∷ "step" ∷ [])

two_nodes_run : run quiet two_nodes 1 ≡ ok two_events
unfolding run run_loop edge_nodes sort lookup release events_of
two_nodes_run = refl

run-IsOrdered_example :
    (order : List String) × (two_events ≡ events_of quiet two_nodes order)
    × ((k : String) → count k order ≤ count k (keys two_nodes))
    × IsOrdered (deps_of two_nodes) [] order
run-IsOrdered_example =
    run-IsOrdered quiet two_nodes 1 two_nodes-IsUnique two_nodes-IsKeyed two_events two_nodes_run

run_complete_example :
    (order : List String) × (run quiet two_nodes 1 ≡ ok (events_of quiet two_nodes order))
    × SameItems order (keys two_nodes)
    × IsOrdered (deps_of two_nodes) [] order
run_complete_example =
    run_complete quiet two_nodes 1 two_nodes-IsUnique two_nodes-IsKeyed depth two_nodes-IsClosed
      two_nodes-IsRanked

looped_needs_loop : Has (deps_of looped "loop") "loop"
unfolding deps_of lookup
looped_needs_loop = omega arith

run-drops_self_dependent_example :
    (order : List String) × (run quiet looped 1 ≡ ok (events_of quiet looped order))
    × (count "loop" order ≡ 0)
run-drops_self_dependent_example =
    run-drops_self_dependent quiet looped 1 looped-IsUnique looped-IsKeyed "loop" looped-IsClosed
      looped_needs_loop
