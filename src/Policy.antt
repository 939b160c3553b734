-- ===== src/Policy.antt =====
-- internal/policy: the policy engine and its configuration.
pub mod Config
pub mod ConfigStore
pub mod Engine
pub mod Explain
pub mod Shadow
pub mod Change
pub mod Log
pub mod Learner
pub mod Samples
