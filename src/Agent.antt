-- ===== src/Agent.antt =====
-- internal/agent: plans, their execution in a sandbox, the strategies and the pool of agents.
pub mod Plans
pub mod Score
pub mod Pool
pub mod Sandbox
pub mod Connector
pub mod Execution
pub mod Coder
pub mod Llm
pub mod Strategies
pub mod Samples
