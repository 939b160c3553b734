-- ===== src/Agent/Pool.antt =====
-- internal/agent/pool.go and pool_evolution.go: the agents that run on one task, and the best of their
-- results. What each agent's run comes to is an argument.
pub mod Best
use text.Mathlib.Text.{starts_with}
use Prim.Native.String.{◌++◌ as str_append, slice}
use pads_v.Common.{
  ℕ, zero, suc, ◌+◌, ◌-◌, String, Bool, true, false, ◌&&◌, ◌||◌, Option, none, some, List, [], ◌∷◌,
  ◌++◌, map, if◌then◌else◌, ltb, leb, eqb, length, take, keep, ◌==◌,
}
use pads_v.Common.Float.{Float}
use pads_v.Common.Int.{ℤ, pos, negsuc, ltb_ℤ, eqb_ℤ}
use pads_v.Common.Table.{Table, insert}
use pads_v.Common.{Result, ok, err}
use pads_v.Evolution.AgentLoop.{AgentResult, UcbArmStats}
use pads_v.Agent.Plans.{Task, task_fix_broken}

-- An agent, as far as the pool reads it.
pub record PooledAgent (F : Type 0) : Type 0 where
  pub strategy : String
  pub stats : UcbArmStats F
  pub last_result : Option (AgentResult F)

abbrev pub default_agent_strategies : List String
default_agent_strategies = "greedy" ∷ "exploratory" ∷ "conservative" ∷ []

-- The number of agents: 1 at least and 8 at most.
unfoldable pub pool_size : ℤ → ℕ
pool_size (negsuc n) = 1
pool_size (pos n) = if ltb n 1 then 1 else if ltb 8 n then 8 else n

-- "strategy_" and the letter at the index, which is below 8
abbrev strategy_name : ℕ → String
strategy_name i = str_append "strategy_" (slice "ABCDEFGH" i (suc i))

-- The loop that adds strategies, as often as they are too few.
unfoldable pub more_strategies : ℕ → List String → List String
more_strategies zero strategies = strategies
more_strategies (suc missing) strategies =
    more_strategies missing (strategies ++ strategy_name (length strategies) ∷ [])

unfoldable pub pool_strategies : ℕ → List String
unfolding more_strategies
pool_strategies n =
    let strategies = default_agent_strategies in
    take n (more_strategies (n - length strategies) strategies)

-- NewAgentPool, for agents that have not run
unfoldable pub new_agent_pool : {F : Type 0} → UcbArmStats F → ℤ → List (PooledAgent F)
unfolding pool_size pool_strategies
new_agent_pool no_stats n =
    map (λ s. record { strategy = s; stats = no_stats; last_result = none })
      (pool_strategies (pool_size n))

module _ {F : Type 0} where
  -- Higher score, or as high a score and fewer reasons.
  abbrev pub is_better : AgentResult F → AgentResult F → Bool
  is_better r best =
      ltb_ℤ best.score r.score
      || (eqb_ℤ r.score best.score
          && ltb (length r.semantic_reasons) (length best.semantic_reasons))

  -- The loop of SuggestAndEvaluate.
  unfoldable pub best_from : AgentResult F → List (AgentResult F) → AgentResult F
  best_from best [] = best
  best_from best (r ∷ results) =
      let changed = best_from r results in
      let same = best_from best results in if is_better r best then changed else same

  -- The results that are not nil.
  unfoldable pub valid_results : List (Option (AgentResult F)) → List (AgentResult F)
  valid_results [] = []
  valid_results (none ∷ results) = valid_results results
  valid_results (some r ∷ results) = r ∷ valid_results results

  -- BestResult
  abbrev is_first_or_better : AgentResult F → Option (AgentResult F) → Bool
  is_first_or_better r none = true
  is_first_or_better r (some best) = is_better r best

  unfoldable pub best_result_from :
      Option (AgentResult F) → List (PooledAgent F) → Option (AgentResult F)
  best_result_from best [] = best
  best_result_from best (agent ∷ agents) =
      let kept = best_result_from best agents in
      elim agent.last_result [
        | none ↦ kept
        | some r ↦
            let changed = best_result_from (some r) agents in
            if is_first_or_better r best then changed else kept
      ]

  unfoldable pub best_result : List (PooledAgent F) → Option (AgentResult F)
  unfolding best_result_from
  best_result agents = best_result_from none agents

  -- The end of RunAll: each agent keeps its own result.
  unfoldable pub remember_results :
      List (PooledAgent F) → List (Option (AgentResult F)) → List (PooledAgent F)
  remember_results [] results = []
  remember_results (agent ∷ agents) [] = agent ∷ agents
  remember_results (agent ∷ agents) (r ∷ results) =
      record agent { last_result = r } ∷ remember_results agents results

  -- AllResults
  unfoldable pub all_results : List (PooledAgent F) → List (Option (AgentResult F))
  all_results [] = []
  all_results (agent ∷ agents) = agent.last_result ∷ all_results agents

  -- PoolStats
  unfoldable pub pool_stats : Table (UcbArmStats F) → List (PooledAgent F) → Table (UcbArmStats F)
  pool_stats stats [] = stats
  pool_stats stats (agent ∷ agents) = pool_stats (insert agent.strategy agent.stats stats) agents

  unfoldable pub filter_by_prefix : String → List (PooledAgent F) → List (PooledAgent F)
  filter_by_prefix prefix agents = keep (λ a. starts_with a.strategy prefix) agents

pub data PoolError : Type 0 where
  wrong_kind : String → PoolError
  no_result : PoolError

-- SuggestAndEvaluate, given the results of RunAll.
abbrev pub pick_best : {F : Type 0} → List (AgentResult F) → Result PoolError (AgentResult F)
pick_best [] = err no_result
pick_best (first ∷ results) = ok (best_from first results)

unfoldable pub suggest_from_pool :
    {F : Type 0}
    → Task
    → List (Option (AgentResult F))
    → List (PooledAgent F)
    → Result PoolError (AgentResult F) × List (PooledAgent F)
unfolding best_from valid_results remember_results
suggest_from_pool task results agents =
    let answer = pick_best (valid_results results) in
    if task.kind == task_fix_broken
    then (answer, remember_results agents results)
    else (err (wrong_kind task.kind), agents)

module _ (fl : Float) where
  open fl use {F}

  -- The loop of BestArm, over the statistics in the order of the map.
  unfoldable pub best_arm_from : String → F → Table (UcbArmStats F) → String
  best_arm_from best best_avg [] = best
  best_arm_from best best_avg ((arm, stat) ∷ stats) =
      let avg = fl.div stat.total_reward (fl.of_int (pos stat.pull_count)) in
      let changed = best_arm_from arm avg stats in
      let same = best_arm_from best best_avg stats in
      if eqb stat.pull_count 0 then same else if fl.lt best_avg avg then changed else same

  unfoldable pub best_arm : List (PooledAgent F) → String
  unfolding best_arm_from pool_stats
  best_arm agents = best_arm_from "" (fl.of_int (negsuc 0)) (pool_stats [] agents)
