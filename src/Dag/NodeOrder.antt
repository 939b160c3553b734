-- ===== src/Dag/NodeOrder.antt =====
-- internal/dag/resolver.go: a topological order of the nodes. The list of nodes is the map in the
-- order in which it is ranged over. The result is kept as the keys, which the last line reads.
pub mod Sweep
pub mod Sound
mod Samples
use pads_v.Common.{
  ℕ, zero, suc, ◌+◌, String, Bool, true, false, List, [], ◌∷◌, ◌++◌, Option, none, some, map, eqb,
  if◌then◌else◌, length, keep, Result, ok, err, ◌>>=◌, ◌==◌,
}
use pads_v.Common.Sorting.{sort}
use pads_v.Common.Table.{keys, lookup, put}
use pads_v.Graph.Kahn.{release_one}
use pads_v.Dag.Nodes.{Node, Nodes, GraphError, unknown_dependency, cycle_detected, out_of_fuel}

abbrev pub is_node : Nodes → String → Bool
is_node nodes dep = elim (lookup dep nodes) [ none ↦ false | some _ ↦ true ]

count_deps : Nodes → String → List String → (String → ℕ) → Result GraphError (String → ℕ)
count_deps nodes id [] indegree = ok indegree
count_deps nodes id (dep ∷ deps) indegree =
    if is_node nodes dep
    then count_deps nodes id deps (put indegree id (indegree id + 1))
    else err (unknown_dependency dep)

pub count_nodes : Nodes → Nodes → (String → ℕ) → Result GraphError (String → ℕ)
unfolding count_deps
count_nodes nodes [] indegree = ok indegree
count_nodes nodes ((k, n) ∷ rest) indegree = do
  indegree' ← count_deps nodes n.id n.dependencies indegree
  count_nodes nodes rest indegree'

abbrev pub push_sorted : List String → String → List String
push_sorted ready n = sort (ready ++ n ∷ [])

-- The two inner loops, over all nodes and their dependencies, for one finished node.
sweep_deps : String → String → List String → List String × (String → ℕ) → List String × (String → ℕ)
sweep_deps current id [] s = s
sweep_deps current id (dep ∷ deps) s =
    sweep_deps current id deps (if dep == current then release_one push_sorted id s.0 s.1 else s)

pub sweep : String → Nodes → List String × (String → ℕ) → List String × (String → ℕ)
unfolding sweep_deps
sweep current [] s = s
sweep current ((k, n) ∷ rest) s = sweep current rest (sweep_deps current n.id n.dependencies s)

pub order_loop :
    ℕ → Nodes → List String → (String → ℕ) → List String → Result GraphError (List String)
order_loop fuel nodes [] indegree order = ok order
order_loop zero nodes (current ∷ ready) indegree order = err out_of_fuel
order_loop (suc fuel) nodes (current ∷ ready) indegree order =
    let (ready', indegree') = sweep current nodes (ready, indegree) in
    order_loop fuel nodes ready' indegree' (order ++ current ∷ [])

pub resolve_keys : Nodes → Result GraphError (List String)
unfolding count_nodes order_loop sweep
resolve_keys nodes = do
  indegree ← count_nodes nodes nodes (λ _. 0)
  let ids = sort (keys nodes)
  let ready = keep (λ id. eqb (indegree id) 0) ids
  order ← order_loop (suc (length ids)) nodes ready indegree []
  if eqb (length order) (length nodes) then ok order else err cycle_detected

-- The pointers of the map: a key that is missing would read as nil.
unfoldable pub resolve_order : Nodes → Result GraphError (List (Option Node))
unfolding resolve_keys
resolve_order nodes = do order ← resolve_keys nodes; ok (map (λ id. lookup id nodes) order)
