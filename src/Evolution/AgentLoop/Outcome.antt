-- ===== src/Evolution/AgentLoop/Outcome.antt =====
-- What a result of the agents' loop holds of the cycle it comes from.
use pads_v.Common.{ℕ, ◌≡◌, refl, ap, sym, ◌∙◌, String, none, some, List}
use pads_v.Common.Float.{Float}
use pads_v.Common.Int.{ℤ}
use pads_v.Evolution.Types.{CycleResult, Event, Codec}
use pads_v.Evolution.Wal.{Entry, Digest}
use pads_v.Evolution.Loop.{Call, World, returned, crashed}
use pads_v.Evolution.Bandit.{UcbSelector, select}
use pads_v.Evolution.AgentLoop.{
  AgentCandidate, AgentLoop, AgentResult, Evaluation, evaluated, panicked, no_cycle, conclude,
  evaluate_candidate,
}

module _ (fl : Float) where
  open fl use {F}

  abbrev cycle_of : Evaluation F → CycleResult F
  cycle_of panicked = no_cycle fl
  cycle_of (evaluated result al) = result.cycle_result

  cycle_of-conclude :
      (u : UcbSelector F) (candidate : AgentCandidate F) (arm : String) (current_score : ℤ)
      (risk : F) (reasons : List String) (answer : Call F)
      → cycle_of (conclude fl u candidate arm current_score risk reasons answer) ≡ no_cycle fl
  unfolding conclude
  cycle_of-conclude u candidate arm s risk reasons crashed = refl
  cycle_of-conclude u candidate arm s risk reasons (returned l accepted none) = refl
  cycle_of-conclude u candidate arm s risk reasons (returned l accepted (some e)) = refl

  -- A result has no cycle of its own, whatever the evolution answers.
  pub cycle_result-evaluate_candidate :
      (entries : Codec (Entry F)) (events : Codec (Event F)) (digest : Digest F) (intn : ℕ → ℕ)
      (io : World) (al : AgentLoop F) (candidate : AgentCandidate F) (current_score : ℤ)
      (weight risk : F) (reasons : List String) (result : AgentResult F) (al' : AgentLoop F)
      → evaluate_candidate fl entries events digest intn io al candidate current_score weight risk
          reasons
        ≡ evaluated result al'
      → result.cycle_result ≡ no_cycle fl
  unfolding evaluate_candidate
  cycle_result-evaluate_candidate entries events digest intn io al candidate current_score weight
        risk reasons result al' h =
      sym (ap cycle_of h)
      ∙ cycle_of-conclude al.selector (record candidate { strategy = select fl intn al.selector }) _
          current_score risk reasons _
