-- ===== src/Agent/Connector.antt =====
-- internal/agent/evolution_bridge.go: a suggestion of the agent, tried in the sandbox and judged by the
-- evolution loop. What the agent, the sandbox and the semantic analysis answer are arguments.
pub mod Reset
use pads_v.Common.{
  ℕ, ◌≡◌, refl, String, Bool, true, false, Option, none, some, List, [], ◌∷◌, if◌then◌else◌, Result,
  ok, err,
}
use pads_v.Common.Float.{Float}
use pads_v.Common.Int.{ℤ, pos}
use pads_v.Evolution.Types.{Event, Codec}
use pads_v.Evolution.Wal.{Entry, Digest}
use pads_v.Evolution.Loop.{World}
use pads_v.Evolution.Bandit.{select}
use pads_v.Evolution.AgentLoop.{
  AgentCandidate, AgentResult, AgentLoop, Evaluation, evaluated, panicked, build_agent_candidate,
  evaluate_candidate,
}
use pads_v.Agent.Plans.{Task, Plan, serialize_plan}
use pads_v.Agent.Score.{SandboxResult, compute_sandbox_score}

-- EvolutionConnector and CodeAgentForEvolution, as far as a suggestion moves them.
pub record Connector (F : Type 0) : Type 0 where
  pub agent_loop : AgentLoop F
  pub current_score : ℤ
  pub min_confidence : F

-- The answer of runSemanticAnalysis.
pub record Semantics (F : Type 0) : Type 0 where
  pub risk : F
  pub reasons : List String
  pub mod_impact : F

pub data Suggestion (F : Type 0) : Type 0 where
  suggested : AgentResult F → Connector F → Suggestion F
  solve_failed : String → Connector F → Suggestion F
  sandbox_failed : String → Connector F → Suggestion F
  broke_down : Suggestion F

-- What the parts of one call answer: the identifier and time of the candidate, the agent's plan, the
-- sandbox, the analysis, and the random choices of the two selections.
pub record Answers (F : Type 0) : Type 0 where
  pub id : String
  pub now : ℕ
  pub plan : Result String Plan
  pub sandbox : Plan → SandboxResult
  pub semantics : Plan → Semantics F
  pub choose : ℕ → ℕ
  pub choose_again : ℕ → ℕ
  pub io : World

module _ (fl : Float) (entries : Codec (Entry (Float.F fl))) (events : Codec (Event (Float.F fl)))
    (digest : Digest (Float.F fl)) where
  open fl use {F}

  -- NewCodeAgentForEvolution
  unfoldable pub new_connector : AgentLoop F → Connector F
  new_connector al = record {
    agent_loop = al;
    current_score = pos 50;
    min_confidence = fl.ratio (pos 6) (pos 10);
  }

  -- UpdateScore
  abbrev pub update_current : ℤ → Connector F → Connector F
  update_current score c = record c { current_score = score }

  abbrev one : F
  one = fl.of_int (pos 1)

  -- The score after a result: that of its cycle, where it is accepted.
  unfoldable pub next_score : Connector F → AgentResult F → ℤ
  next_score c result = if result.accepted then result.cycle_result.score else c.current_score

  abbrev pub judged : Connector F → Evaluation F → Suggestion F
  judged c panicked = broke_down
  judged c (evaluated result al) =
      suggested result (record c { agent_loop = al; current_score = next_score c result })

  -- A candidate for the arm that the selector would choose now.
  unfoldable pub candidate_for : Answers F → Connector F → Task → Plan → AgentCandidate F
  unfolding build_agent_candidate serialize_plan
  candidate_for answers c task plan =
      let arm = select fl answers.choose_again c.agent_loop.selector in
      record (build_agent_candidate fl answers.now answers.id task.target (serialize_plan plan)
        c.min_confidence arm) { mod_impact = (answers.semantics plan).mod_impact }

  -- An error of the sandbox is evaluated too, and its result dropped.
  abbrev pub after_failure : String → Connector F → Evaluation F → Suggestion F
  after_failure e c panicked = broke_down
  after_failure e c (evaluated result al) = sandbox_failed e (record c { agent_loop = al })

  -- EvolutionConnector.SuggestAndEvaluate
  unfoldable pub suggest_and_evaluate : Answers F → Connector F → Task → Suggestion F
  unfolding candidate_for evaluate_candidate next_score
  suggest_and_evaluate answers c task = elim answers.plan [
    | err e ↦ solve_failed e c
    | ok plan ↦
        let semantics = answers.semantics plan in
        let attempt =
          evaluate_candidate fl entries events digest answers.choose answers.io c.agent_loop in
        elim (answers.sandbox plan).error [
          | some e ↦
              let failed_candidate =
                build_agent_candidate fl answers.now answers.id task.target "" c.min_confidence
                  "sandbox_error" in
              after_failure e c (
                attempt failed_candidate c.current_score one fl.zero
                  ("sandbox execution failed" ∷ []))
          | none ↦ judged c (
              attempt (candidate_for answers c task plan) c.current_score one semantics.risk
                semantics.reasons)
        ]
  ]

  -- CodeAgentForEvolution.RunTask, which compares with the score of the sandbox.
  unfoldable pub run_task : Answers F → Connector F → Task → Suggestion F
  unfolding candidate_for evaluate_candidate next_score compute_sandbox_score
  run_task answers c task = elim answers.plan [
    | err e ↦ solve_failed e c
    | ok plan ↦
        let semantics = answers.semantics plan in
        let tested = answers.sandbox plan in
        elim tested.error [
          | some e ↦ sandbox_failed e c
          | none ↦ judged c (
              evaluate_candidate fl entries events digest answers.choose answers.io c.agent_loop
                (candidate_for answers c task plan) (pos (compute_sandbox_score tested)) one
                semantics.risk semantics.reasons)
        ]
  ]
