-- ===== src/Evolution/AgentLoop.antt =====
-- internal/policy/evolution/agent_loop.go: the suggestions of agents on the evolution loop, with the
-- UCB1 selector. `Texts` is fmt's notation of a float with two digits.
pub mod Outcome
use Prim.Native.String.{◌++◌ as str_append}
use pads_v.Common.{
  ℕ, ◌+◌, String, Bool, true, false, Option, none, some, List, [], ◌∷◌, if◌then◌else◌, ltb,
}
use pads_v.Common.Float.{Float}
use pads_v.Common.Int.{ℤ, pos}
use pads_v.Common.Table.{Table, lookup}
use pads_v.Evolution.Types.{Candidate, CycleResult, Event, Mode, Codec, build_reason}
use pads_v.Evolution.Wal.{Entry, Digest}
use pads_v.Evolution.Loop.{
  Loop, LoopError, World, Call, returned, crashed, evolve, stability_score, compute_reward,
}
use pads_v.Evolution.Bandit.{UcbSelector, select, update_arm, add_arm, count_of}
use pads_v.Evolution.Queue.{QueueEvent}

pub record AgentCandidate (F : Type 0) : Type 0 where
  pub id : String
  pub target_file : String
  pub patch : String
  pub confidence : F
  pub retries : ℕ
  pub strategy : String
  pub created_at : ℕ
  pub mod_impact : F

-- The text of BuildReason, or an error, whose text is not made.
pub data AgentReason : Type 0 where
  decided : String → AgentReason
  failed : LoopError → AgentReason

pub record AgentResult (F : Type 0) : Type 0 where
  pub candidate_id : String
  pub score : ℤ
  pub accepted : Bool
  pub cycle_result : CycleResult F
  pub stability_score : F
  pub reason : AgentReason
  pub ucb_arm : String
  pub reward : F
  pub semantic_risk : F
  pub semantic_reasons : List String

pub record AgentLoop (F : Type 0) : Type 0 where
  pub loop : Loop F
  pub selector : UcbSelector F

pub record UcbArmStats (F : Type 0) : Type 0 where
  pub total_reward : F
  pub pull_count : ℕ
  pub avg_reward : F

-- A call of Evaluate; `panicked` where the loop panics.
pub data Evaluation (F : Type 0) : Type 0 where
  evaluated : AgentResult F → AgentLoop F → Evaluation F
  panicked : Evaluation F

module _ (fl : Float) where
  open fl use {F}

  unfoldable pub build_agent_candidate :
      ℕ → String → String → String → F → String → AgentCandidate F
  build_agent_candidate now id target_file patch confidence strategy = record {
    id = id;
    target_file = target_file;
    patch = patch;
    confidence = confidence;
    retries = 0;
    strategy = strategy;
    created_at = now;
    mod_impact = fl.zero;
  }

  -- Score
  unfoldable pub candidate_score : AgentCandidate F → ℤ
  candidate_score c = fl.to_int (fl.mul c.confidence (fl.of_int (pos 100)))

  abbrev at_least : F → F → F
  at_least bound x = if fl.lt x bound then bound else x

  abbrev at_most : F → F → F
  at_most bound x = if fl.lt bound x then bound else x

  unfoldable pub weighted_score : AgentCandidate F → ℤ
  weighted_score c =
      let half = fl.ratio (pos 1) (pos 2) in
      let multiplier = fl.add (fl.sub (fl.of_int (pos 1)) (fl.mul c.mod_impact half)) half in
      let bounded = at_most (fl.ratio (pos 13) (pos 10)) (at_least half multiplier) in
      fl.to_int (fl.mul (fl.mul c.confidence (fl.of_int (pos 100))) bounded)

  -- CycleResult{}, the zero value
  abbrev pub no_cycle : CycleResult F
  no_cycle = record { score = pos 0; confidence = fl.zero; accepted = false }

  abbrev pub arm_reward : Option F → F
  arm_reward none = fl.zero
  arm_reward (some total) = total

  unfoldable pub arm_stats : UcbSelector F → String → UcbArmStats F
  unfolding count_of
  arm_stats u name =
      let total = arm_reward (lookup name u.arms) in
      let pulls = count_of u name in
      record {
        total_reward = total;
        pull_count = pulls;
        avg_reward = if ltb 0 pulls then fl.div total (fl.of_int (pos pulls)) else fl.zero;
      }

  unfoldable pub stats_of : UcbSelector F → List String → Table (UcbArmStats F)
  unfolding arm_stats
  stats_of u [] = []
  stats_of u (name ∷ names) = (name, arm_stats u name) ∷ stats_of u names

  -- UCBStats
  abbrev pub ucb_stats : AgentLoop F → Table (UcbArmStats F)
  ucb_stats al = stats_of al.selector al.selector.names

  -- Where Evolve returns an error.
  unfoldable pub failure : AgentCandidate F → String → LoopError → F → List String → AgentResult F
  failure candidate arm e semantic_risk semantic_reasons = record {
    candidate_id = candidate.id;
    score = pos 0;
    accepted = false;
    cycle_result = no_cycle;
    stability_score = fl.zero;
    reason = failed e;
    ucb_arm = arm;
    reward = fl.zero;
    semantic_risk = semantic_risk;
    semantic_reasons = semantic_reasons;
  }

  -- Where it does not: the result has no cycle result of its own.
  unfoldable pub success :
      AgentCandidate F → String → Loop F → Bool → ℤ → F → List String → AgentResult F
  success candidate arm l accepted current_score semantic_risk semantic_reasons =
      let before = fl.of_int current_score in
      let after = stability_score fl l in
      record {
        candidate_id = candidate.id;
        score = fl.to_int after;
        accepted = accepted;
        cycle_result = no_cycle;
        stability_score = after;
        reason = decided (
            build_reason fl accepted (candidate_score candidate) current_score
              (fl.sub after before));
        ucb_arm = arm;
        reward = compute_reward fl before after accepted;
        semantic_risk = semantic_risk;
        semantic_reasons = semantic_reasons;
      }

  -- What Evaluate makes of the answer of Evolve.
  unfoldable pub conclude :
      UcbSelector F → AgentCandidate F → String → ℤ → F → List String → Call F → Evaluation F
  unfolding failure success
  conclude u candidate arm current_score risk reasons crashed = panicked
  conclude u candidate arm current_score risk reasons (returned l accepted (some e)) =
      evaluated (failure candidate arm e risk reasons) (record { loop = l; selector = u })
  conclude u candidate arm current_score risk reasons (returned l accepted none) =
      let result = success candidate arm l accepted current_score risk reasons in
      evaluated result (record { loop = l; selector = update_arm fl arm result.reward u })

  module _ (entries : Codec (Entry F)) (events : Codec (Event F)) (digest : Digest F) (intn : ℕ → ℕ)
      (io : World) where
    -- Evaluate
    unfoldable pub evaluate_candidate :
        AgentLoop F → AgentCandidate F → ℤ → F → F → List String → Evaluation F
    unfolding candidate_score conclude
    evaluate_candidate al candidate current_score weight risk reasons =
        let arm = select fl intn al.selector in
        let answer =
          evolve fl entries events digest io al.loop (record { score = candidate_score candidate })
            (record { score = current_score }) weight in
        conclude al.selector (record candidate { strategy = arm }) arm current_score risk reasons
          answer
