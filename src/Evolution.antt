-- ===== src/Evolution.antt =====
-- internal/policy/evolution: the evolution engine.
pub mod File
pub mod Types
pub mod Detector
pub mod Gate
pub mod Wal
pub mod Loop
pub mod RateLimit
pub mod Queue
pub mod Worker
pub mod Bandit
pub mod Replay
pub mod AgentLoop
pub mod Uniform
pub mod Samples
