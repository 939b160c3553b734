-- ===== src/Agent/Connector/Reset.antt =====
-- The score that the next suggestion is compared with.
use pads_v.Common.{
  ◌≡◌, refl, ap, subst, String, if◌then◌else◌, Result-cases, Option-cases, inl, inr,
}
use pads_v.Common.Float.{Float}
use pads_v.Common.Int.{ℤ, pos}
use pads_v.Evolution.Types.{Event, Codec}
use pads_v.Evolution.Wal.{Entry, Digest}
use pads_v.Evolution.AgentLoop.{AgentResult, AgentLoop, Evaluation, evaluated, panicked, no_cycle}
use pads_v.Evolution.AgentLoop.Outcome.{cycle_result-evaluate_candidate}
use pads_v.Agent.Plans.{Task}
use pads_v.Agent.Connector.{
  Connector, Answers, Suggestion, suggested, solve_failed, sandbox_failed, broke_down, judged,
  next_score, candidate_for, after_failure, suggest_and_evaluate,
}

module _ (fl : Float) (entries : Codec (Entry (Float.F fl))) (events : Codec (Event (Float.F fl)))
    (digest : Digest (Float.F fl)) where
  open fl use {F}

  -- A suggestion that is judged leaves the score at 0 where it is accepted.
  abbrev IsReset : ℤ → Suggestion F → Type 0
  IsReset before (suggested result c) =
      c.current_score ≡ (if result.accepted then pos 0 else before)
  IsReset before (solve_failed e c) = Unit
  IsReset before (sandbox_failed e c) = Unit
  IsReset before broke_down = Unit

  judged-IsReset :
      (c : Connector F) (e : Evaluation F)
      → ((result : AgentResult F) (al : AgentLoop F)
          → e ≡ evaluated result al
          → result.cycle_result ≡ no_cycle fl)
      → IsReset c.current_score (judged fl entries events digest c e)
  unfolding next_score
  judged-IsReset c panicked h = tt
  judged-IsReset c (evaluated result al) h =
      ap (λ cycle. if result.accepted then cycle.score else c.current_score) (h result al refl)

  after_failure-IsReset :
      (c : Connector F) (error : String) (e : Evaluation F)
      → IsReset c.current_score (after_failure fl entries events digest error c e)
  after_failure-IsReset c error panicked = tt
  after_failure-IsReset c error (evaluated result al) = tt

  suggest_and_evaluate-IsReset :
      (answers : Answers F) (c : Connector F) (task : Task)
      → IsReset c.current_score (suggest_and_evaluate fl entries events digest answers c task)
  unfolding suggest_and_evaluate
  suggest_and_evaluate-IsReset answers c task = elim (Result-cases answers.plan) [
    | inr (e, failed) ↦ rw (failed, suggest_and_evaluate) tt
    | inl (plan, solved) ↦ elim (Option-cases (answers.sandbox plan).error) [
      | inr (e, failed) ↦ rw (solved, failed, suggest_and_evaluate) (after_failure-IsReset c e _)
      | inl fine ↦
          rw (solved, fine, suggest_and_evaluate)
            (judged-IsReset c _ (
              cycle_result-evaluate_candidate fl entries events digest answers.choose answers.io
                c.agent_loop (candidate_for fl entries events digest answers c task plan)
                c.current_score (fl.of_int (pos 1)) (answers.semantics plan).risk
                (answers.semantics plan).reasons))
    ]
  ]

  -- A suggestion that the loop accepts leaves the connector with a current score of 0, whatever the
  -- score of the candidate: it reads that of the cycle, which no result holds. One that it rejects
  -- leaves the current score as it was.
  pub current_score-suggest_and_evaluate :
      (answers : Answers F) (c : Connector F) (task : Task) (result : AgentResult F)
      (c' : Connector F)
      → suggest_and_evaluate fl entries events digest answers c task ≡ suggested result c'
      → c'.current_score ≡ (if result.accepted then pos 0 else c.current_score)
  current_score-suggest_and_evaluate answers c task result c' h =
      subst (IsReset c.current_score) h (suggest_and_evaluate-IsReset answers c task)
