-- ===== src/Dag/Nodes.antt =====
-- internal/dag/node.go and internal/event/canonical.go.
use pads_v.Common.{ℕ, String, ◌≡◌, List, [], none, some, All}
use pads_v.Common.Table.{Table, lookup}

pub data NodeType : Type 0 where
  job_start job_end step_run cache artifact : NodeType

pub record ActionSpec : Type 0 where
  pub command : String
  pub working_dir : String

pub record Node : Type 0 where
  pub id : String
  pub type : NodeType
  pub job_id : String
  pub step_id : String
  pub action : ActionSpec
  pub dependencies : List String

-- graph.Nodes
abbrev pub Nodes : Type 0
Nodes = Table Node

pub record CanonicalEvent : Type 0 where
  pub node_id : String
  pub type : String
  pub job_id : String
  pub step_id : String
  pub status : String
  pub payload : String
  pub time : ℕ

pub data GraphError : Type 0 where
  unknown_dependency : String → GraphError
  cycle_detected : GraphError
  out_of_fuel : GraphError

-- The dependencies of the node stored under a key; a missing key has none.
unfoldable pub deps_of : Nodes → String → List String
deps_of nodes k = elim (lookup k nodes) [ none ↦ [] | some n ↦ n.dependencies ]

-- Each node stands under its own ID.
abbrev pub IsKeyed : Nodes → Type 0
IsKeyed = All (λ entry. entry.0 ≡ entry.1.id)
