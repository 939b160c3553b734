-- ===== src/Dag/Run.antt =====
-- internal/dag/executor.go: the executor. A run's commands are a parameter: what the command of a
-- node prints and how it exits. The goroutines of one batch are joined before their results are
-- read, keyed by node, so the order in which they finish leaves no trace and is not modelled.
pub mod Batch
pub mod Loop
pub mod Sound
mod Samples
use Prim.Native.String.{◌++◌ as str_append}
use pads_v.Common.{
  ℕ, zero, suc, ◌+◌, String, Bool, true, false, List, [], ◌∷◌, ◌++◌, Option, none, some, eqb,
  if◌then◌else◌, length, keep, take, drop, Result, ok, err, ◌>>=◌,
}
use pads_v.Common.Sorting.{sort}
use pads_v.Common.Table.{keys, lookup}
use pads_v.Graph.Edges.{Edges, no_edges, add_edge}
use pads_v.Graph.Kahn.{release}
use pads_v.Dag.Nodes.{
  Node, Nodes, ActionSpec, CanonicalEvent, GraphError, unknown_dependency, out_of_fuel, job_start,
  job_end, step_run, cache, artifact,
}
use pads_v.Dag.NodeOrder.{is_node}

-- `cmd.CombinedOutput()`: the output, with no error, an exit status, or a command that did not run.
-- An `*exec.ExitError` has an exit status that is not 0 (`exit_error`), or is 0 (`zero_exit`).
pub data ShellResult : Type 0 where
  success exit_error zero_exit no_start : (output : String) → ShellResult

abbrev pub Shell : Type 0
Shell = ActionSpec → ShellResult

abbrev output_of : ShellResult → String
output_of (success out) = out
output_of (exit_error out) = out
output_of (zero_exit out) = out
output_of (no_start out) = out

-- exitCode == 0
abbrev succeeded : ShellResult → Bool
succeeded (success _) = true
succeeded (exit_error _) = false
succeeded (zero_exit _) = true
succeeded (no_start _) = false

abbrev node_event : Node → String → String → String → String → CanonicalEvent
node_event n type step_id status payload = record {
  node_id = n.id;
  type = type;
  job_id = n.job_id;
  step_id = step_id;
  status = status;
  payload = payload;
  time = 0;
}

abbrev step_events : Node → ShellResult → List CanonicalEvent
step_events n r =
    let out = output_of r in
    node_event n "CI_STEP_STARTED" n.step_id "RUNNING" ""
    ∷ (if succeeded r
        then node_event n "CI_STEP_FINISHED" n.step_id "SUCCESS" out
          ∷ node_event n "CI_ARTIFACT" n.step_id "CREATED"
              (str_append "{\"output\":\"" (str_append out "\"}"))
          ∷ []
        else node_event n "CI_STEP_FINISHED" n.step_id "FAILED" out ∷ [])

abbrev typed_events : Shell → Node → List CanonicalEvent
typed_events shell n = elim n.type [
  | job_start ↦ node_event n "CI_JOB_STARTED" "" "RUNNING" "" ∷ []
  | job_end ↦ node_event n "CI_JOB_FINISHED" "" "SUCCESS" "" ∷ []
  | step_run ↦ step_events n (shell n.action)
  | cache ↦ []
  | artifact ↦ []
]

unfoldable pub execute_node : Shell → Node → List CanonicalEvent
execute_node shell n = typed_events shell n

-- The node that a batch holds, by its ID. A key of the graph is always found.
pub execute_at : Shell → Nodes → String → List CanonicalEvent
unfolding execute_node
execute_at shell nodes id = elim (lookup id nodes) [ none ↦ [] | some n ↦ execute_node shell n ]

pub events_of : Shell → Nodes → List String → List CanonicalEvent
unfolding execute_at
events_of shell nodes [] = []
events_of shell nodes (id ∷ ids) = execute_at shell nodes id ++ events_of shell nodes ids

edge_deps : Nodes → String → List String → Edges → Result GraphError Edges
edge_deps nodes id [] e = ok e
edge_deps nodes id (dep ∷ deps) e =
    if is_node nodes dep
    then edge_deps nodes id deps (add_edge id dep e)
    else err (unknown_dependency dep)

pub edge_nodes : Nodes → Nodes → Edges → Result GraphError Edges
unfolding edge_deps
edge_nodes nodes [] e = ok e
edge_nodes nodes ((k, n) ∷ rest) e = do
  e' ← edge_deps nodes n.id n.dependencies e
  edge_nodes nodes rest e'

abbrev pub push_last : List String → String → List String
push_last ready n = ready ++ n ∷ []

-- The update of the scheduler's state after a batch.
pub release_batch :
    (String → List String) → List String → List String → (String → ℕ) → List String × (String → ℕ)
release_batch adj [] ready indegree = (ready, indegree)
release_batch adj (id ∷ batch) ready indegree =
    let (ready', indegree') = release push_last (adj id) ready indegree in
    release_batch adj batch ready' indegree'

pub run_loop :
    ℕ
    → Shell
    → Nodes
    → (max_parallel : ℕ) → (String → List String)
    → List String
    → (String → ℕ)
    → List CanonicalEvent
    → Result GraphError (List CanonicalEvent)
unfolding release_batch events_of
run_loop fuel shell nodes max_parallel adj [] indegree all_events = ok all_events
run_loop zero shell nodes max_parallel adj (id ∷ ids) indegree all_events = err out_of_fuel
run_loop (suc fuel) shell nodes max_parallel adj (id ∷ ids) indegree all_events =
    let batch = take max_parallel (id ∷ ids) in
    let (ready', indegree') = release_batch adj batch (drop max_parallel (id ∷ ids)) indegree in
    run_loop fuel shell nodes max_parallel adj (sort ready') indegree'
      (all_events ++ events_of shell nodes batch)

-- The IDs of the nodes in the order of the map, before they are sorted.
abbrev pub initial : Nodes → (String → ℕ) → List String
initial [] indegree = []
initial ((k, n) ∷ rest) indegree =
    if eqb (indegree n.id) 0 then n.id ∷ initial rest indegree else initial rest indegree

-- A bound of 0 (or below) becomes 4.
abbrev pub parallel : ℕ → ℕ
parallel max_parallel = if eqb max_parallel 0 then 4 else max_parallel

unfoldable pub run : Shell → Nodes → ℕ → Result GraphError (List CanonicalEvent)
unfolding edge_nodes run_loop
run shell nodes max_parallel = do
  e ← edge_nodes nodes nodes no_edges
  run_loop (suc (length nodes)) shell nodes (parallel max_parallel) (λ id. sort (e.graph id))
      (sort (initial nodes e.indegree)) e.indegree []
