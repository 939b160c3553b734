-- ===== src/Graph.antt =====
-- The two dependency graphs of the CI: jobs (internal/ci/dag.go) and nodes (internal/dag).
pub mod Edges
pub mod Kahn
