-- ===== src/Dag/NodeOrder/Samples.antt =====
-- The order of nodes on small graphs.
use pads_v.Common.{ℕ, ◌≡◌, refl, String, List, [], ◌∷◌, Option, some, map, ◌⊎◌, ok, err}
use pads_v.Common.Count.{SameItems}
use pads_v.Common.Sorting.{sort}
use pads_v.Common.Table.{keys, lookup}
use pads_v.Graph.Kahn.Steps.{IsOrdered, IsRanked}
use pads_v.Dag.Nodes.{Node, unknown_dependency, cycle_detected, deps_of, step_run, job_start}
use pads_v.Dag.Samples.{
  node, two_nodes, two_nodes-IsUnique, two_nodes-IsKeyed, depth, two_nodes-IsClosed,
  two_nodes-IsRanked, looped, looped-IsUnique, looped-IsKeyed,
}
use pads_v.Dag.NodeOrder.{resolve_order, resolve_keys}
use pads_v.Dag.NodeOrder.Sound.{
  IsDangling, resolve_order-IsOrdered, resolve_order_total, resolve_order-err,
}

abbrev ordered_nodes : List (Option Node)
ordered_nodes = some (node "begin" job_start []) ∷ some (node "step" step_run ("begin" ∷ [])) ∷ []

two_nodes_order : resolve_order two_nodes ≡ ok ordered_nodes
unfolding resolve_order resolve_keys sort lookup
two_nodes_order = refl

resolve_order-IsOrdered_example :
    (order : List String) × (map (λ id. lookup id two_nodes) order ≡ ordered_nodes)
    × SameItems order (keys two_nodes)
    × IsOrdered (deps_of two_nodes) [] order
resolve_order-IsOrdered_example =
    resolve_order-IsOrdered two_nodes ordered_nodes two_nodes-IsUnique two_nodes-IsKeyed
      two_nodes_order

resolve_order_total_example : (result : List (Option Node)) × (resolve_order two_nodes ≡ ok result)
resolve_order_total_example =
    resolve_order_total two_nodes depth two_nodes-IsUnique two_nodes-IsKeyed two_nodes-IsClosed
      two_nodes-IsRanked

looped_fails : resolve_order looped ≡ err cycle_detected
unfolding resolve_order resolve_keys sort lookup
looped_fails = refl

resolve_order-err_example :
    ((d : String) × (cycle_detected ≡ unknown_dependency d) × IsDangling looped d)
    ⊎ ((cycle_detected ≡ cycle_detected)
        × ((rank : String → ℕ) → ¬ IsRanked rank (deps_of looped) (keys looped)))
resolve_order-err_example =
    resolve_order-err looped cycle_detected looped-IsUnique looped-IsKeyed looped_fails
