-- ===== src/Lib.antt =====
-- Verification of PADS v3, an evolution engine with a deterministic CI.
--
-- The program's parts that are modelled:
--   * internal/ci orders the jobs of a run by Kahn's algorithm (dag.go), and internal/ci/causal
--     compares the events of a run with those of its replay, and says what to do about the first
--     difference; plan.go makes the graph of the jobs, which the scheduler runs and the replay verifier
--     and the certifier (internal/ci/certification) run again; internal/adaptive repeats runs until
--     they agree with a reference;
--   * internal/dag resolves and executes a graph of nodes, in batches, and yields events in the
--     format of internal/event;
--   * internal/policy/evolution judges candidates: a gate and a detector over windows of scores, a
--     write-ahead log with a chain of hashes, an event store, the loop that joins them under one
--     lock, and, in front of it, a rate limiter, a queue on disk and a worker;
--   * internal/policy decides on the results of a run by a configuration that it updates, smooths and
--     rolls back; it traces and logs its decisions, learns a configuration from them, and validates a
--     change of it on recent inputs (shadow, change);
--   * internal/agent has a language model write a patch, tries it in a copy of the project, and has the
--     evolution loop judge it, alone or in a pool of agents;
--   * internal/reducer replays the log of test results to the state of each node;
--   * internal/health reports whether the parts are reachable.
--
-- Files:
--   Common      names of the libraries, tests, lists, tables (maps as association lists, in the order
--               in which they are ranged over), counting, sorting, integers, floats
--   Graph       the edges and the release step that the three schedulers share, with its invariant
--   Ci          Jobs, JobOrder (ResolveJobOrder of ci/dag.go), Expansion (Matrix.Expand), Causal
--               (ci/causal: InstrumentEvents; Divergence: LocateDivergence and
--               FindFirstDivergentNode; Patch: GeneratePatch, ApplyPatch and AnalyzeCause), Plan
--               (BuildDAG and the keys of the cache), Verify (WAL, Scheduler, ReplayVerifier,
--               Certifier, and ReadWALFile of internal/trace)
--   Adaptive    Loop and AdaptiveLoopV2 of internal/adaptive
--   Health      internal/health
--   Dag         Nodes, NodeOrder (Graph.ResolveOrder), Run (Executor.Run)
--   Evolution   File (log files with torn and too long lines), Types,
--               Detector (AntiCollapseDetector), Gate (StabilityGate, MultiCycleEvaluator,
--               Orchestrator, Controller), Wal (WAL, WALStore, WALBridge, EventStore), Loop
--               (SafeEvolutionLoopV3, RollbackManager), RateLimit (RateLimiter), Queue (EventQueue),
--               Worker (Worker), Bandit (UCBSelector), Uniform (Bandit), Replay (ReplayEngine),
--               AgentLoop (AgentLoop.Evaluate)
--   Policy      Config (TunedConfig), ConfigStore, Engine (Engine.Evaluate), Explain (BuildTrace,
--               ReplayEngine.Replay, BuildExplanation), Shadow (ShadowEvaluator), Change (Validator,
--               registry, gate and safety), Log (PolicyWAL), Learner (Learner; Anomaly:
--               AnomalyDetector; Session: LearnFromWAL)
--   Agent       Plans (SerializePlan, itoa), Score (ComputeSandboxScore), Sandbox (Sandbox,
--               SandboxExecutor), Execution (Executor), Coder (CodeAgent), Llm (the
--               clients of language models), Strategies (StrategyRegistry and the prompts),
--               Connector (EvolutionConnector), Pool (AgentPool, EvolutionConnectorPool)
--   Reducer     Reduce and RunReductionLoop
--   Modules named Samples hold runs on concrete inputs.
--
-- State is passed explicitly: an operation takes the record of its component and returns the next
-- one with its result. A Go error is a value; a panic is a value too (Evolution.Loop). Locks are
-- held for whole operations, so an operation is one step. Loops over a queue of work take fuel: one
-- more than the number of keys, which is enough since each key enters the queue at most once. Other
-- loops are structural.
--
-- Parameters stand for what is not the program's: `float64` with its operations (Common.Float, no
-- law assumed), encoding/json (Codec), crypto/sha256 (Digest), the disk and the clock (Disk, World),
-- commands (Shell, System, Host), paths (Paths), decimal notation (Format, Digits). A Go `int` that
-- only counts is a natural number, any other an unbounded integer. A log of
-- internal/policy/evolution is its ended lines and the text behind the last newline, since a write may
-- stop within its line (File), and is read as bufio.Scanner does, which stops at a line of 64 KB; the
-- logs of internal/ci and internal/policy/wal are lists of lines, without such writes.
--
-- Not modelled: commands and HTTP handlers (cmd), the circuit breaker, the Claude client and the
-- semantic analysis of internal/agent, parsers of sources and SQL (internal/symbol, internal/semantic,
-- internal/codeanalysis, internal/compiler, internal/resolver, internal/storage but for the tables of
-- the reducer), the runner and the gates of internal/ci, the older loops of
-- internal/policy/evolution, and the processes, SQL and fault injection of internal/engine,
-- internal/executor, internal/replay, internal/scheduler, internal/fault and internal/autonomous.
pub mod Common
pub mod Graph
pub mod Ci
pub mod Dag
pub mod Evolution
pub mod Reducer
pub mod Policy
pub mod Agent
pub mod Health
pub mod Adaptive
