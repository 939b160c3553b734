-- ===== src/Dag.antt =====
-- internal/dag: the graph of nodes, its resolver and its executor.
pub mod Nodes
pub mod Weights
pub mod NodeOrder
pub mod Run
pub mod Samples
