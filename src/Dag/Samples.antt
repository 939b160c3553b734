-- ===== src/Dag/Samples.antt =====
-- Small graphs of nodes.
use pads_v.Common.{ℕ, refl, String, List, [], ◌∷◌, arith, ◌==◌, eq_iff, bit}
use pads_v.Common.Count.{bit_apart, IsUnique}
use pads_v.Common.Table.{keys, lookup}
use pads_v.Graph.Kahn.Steps.{IsClosed, IsRanked}
use pads_v.Dag.Nodes.{Node, Nodes, IsKeyed, deps_of, step_run, job_start, NodeType}

abbrev pub node : String → NodeType → List String → Node
node id type deps = record {
  id = id;
  type = type;
  job_id = "job";
  step_id = id;
  action = record { command = "true"; working_dir = "" };
  dependencies = deps;
}

abbrev pub two_nodes : Nodes
two_nodes =
    ("step", node "step" step_run ("begin" ∷ [])) ∷ ("begin", node "begin" job_start []) ∷ []

pub two_nodes-IsUnique : IsUnique (keys two_nodes)
two_nodes-IsUnique k = omega (arith, bit_apart "step" "begin" k refl)

pub two_nodes-IsKeyed : IsKeyed two_nodes
two_nodes-IsKeyed = (refl, (refl, tt))

abbrev pub depth : String → ℕ
depth k = bit ("step" == k)

pub two_nodes-IsClosed : IsClosed (deps_of two_nodes) (keys two_nodes)
unfolding deps_of lookup
two_nodes-IsClosed k d known needed =
    ground (arith, eq_iff "step" k, eq_iff "begin" k, eq_iff "begin" d, eq_iff "step" d)

pub two_nodes-IsRanked : IsRanked depth (deps_of two_nodes) (keys two_nodes)
unfolding deps_of lookup
two_nodes-IsRanked k d known needed = ground (
  arith,
  eq_iff "step" k,
  eq_iff "begin" k,
  eq_iff "begin" d,
  eq_iff "step" d,
  bit_apart "step" "begin" k refl,
  bit_apart "step" "begin" d refl,
)

-- A graph whose one node depends on itself.
abbrev pub looped : Nodes
looped = ("loop", node "loop" step_run ("loop" ∷ [])) ∷ []

pub looped-IsUnique : IsUnique (keys looped)
looped-IsUnique k = ground (arith, eq_iff "loop" k)

pub looped-IsKeyed : IsKeyed looped
looped-IsKeyed = (refl, tt)

pub looped-IsClosed : IsClosed (deps_of looped) (keys looped)
unfolding deps_of lookup
looped-IsClosed k d known needed = ground (arith, eq_iff "loop" k, eq_iff "loop" d)
