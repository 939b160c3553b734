-- ===== src/Ci.antt =====
-- internal/ci: the jobs of a run, their order, the graph of nodes that a run executes.
pub mod Jobs
pub mod JobOrder
pub mod Expansion
pub mod Plan
pub mod Verify
pub mod Causal
