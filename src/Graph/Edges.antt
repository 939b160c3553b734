-- ===== src/Graph/Edges.antt =====
-- The adjacency map and the counters that a scan of the dependencies fills.
use pads_v.Common.{ℕ, ◌+◌, String, List, [], ◌∷◌, ◌++◌}
use pads_v.Common.Table.{put}

-- The maps `graph` (`adj`) and `indegree`; a missing key reads as the empty slice, or as 0.
pub record Edges : Type 0 where
  pub graph : String → List String
  pub indegree : String → ℕ

abbrev pub no_edges : Edges
no_edges = record { graph = λ _. []; indegree = λ _. 0 }

abbrev pub add_edge : String → String → Edges → Edges
add_edge id dep e = record {
  graph = put e.graph dep (e.graph dep ++ id ∷ []);
  indegree = put e.indegree id (e.indegree id + 1);
}
