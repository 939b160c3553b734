-- ===== src/Policy/Explain/Agreement.antt =====
-- The trace of a decision, which BuildTrace computes with tables of its own, beside the decision.
use pads_v.Common.{
  ℕ, ◌≡◌, refl, ap, ap₂, subst, sym, ◌∙◌, Bool, true, false, ◌&&◌, Option, none, some, List, [],
  ◌∷◌, ◌++◌, if◌then◌else◌, ◌==◌, Bool-cases, inl, inr,
}
use pads_v.Common.Float.{Float}
use pads_v.Common.Int.{pos}
use pads_v.Policy.Engine.{
  GateResult, CertificationResult, ChaosReport, PolicyDecision, is_refuted, default_tuned_config,
  no_tally, tally_all, gate_score, capped, penalised, final_score, evaluate,
}
use pads_v.Policy.Explain.{
  TraceStep, Format, no_sums, sum_gates, sort_gates, trace_gate_score, cap_step, chaos_step,
  trace_steps, build_trace, replay, replay_from, replay_steps, gates_step, certification_step,
  final_step, is_score,
}
use pads_v.Policy.Explain.Sums.{sums-sort_gates}

module _ (fl : Float) (format : Format) where
  open fl use {F}

  trace_gate_score-gate_score :
      (gates : List GateResult)
      → trace_gate_score fl format (sum_gates no_sums (sort_gates gates))
        ≡ gate_score fl (tally_all fl (default_tuned_config fl) no_tally gates)
  unfolding trace_gate_score gate_score
  trace_gate_score-gate_score gates = let (t, e, h) = sums-sort_gates fl gates in rw (t, e) refl

  cap_step-capped :
      (hard_fail : Bool) (score : F)
      → (cap_step fl format hard_fail score).1 ≡ capped fl hard_fail score
  unfolding cap_step capped
  cap_step-capped hard_fail score =
      elim (Bool-cases (hard_fail && fl.lt (fl.of_int (pos 60)) score)) [
        | inl e ↦ rw e refl
        | inr e ↦ rw e refl
      ]

  chaos_step-penalised :
      (chaos : Option ChaosReport) (score : F)
      → (chaos_step fl format chaos score).1 ≡ penalised fl (default_tuned_config fl) chaos score
  unfolding chaos_step penalised
  chaos_step-penalised none score = refl
  chaos_step-penalised (some c) score = elim (Bool-cases c.active) [
    | inl e ↦ rw e refl
    | inr e ↦ rw e refl
  ]

  -- The score before the final step of a trace is the engine's.
  traced_score :
      (gates : List GateResult) (chaos : Option ChaosReport)
      → let sums = sum_gates no_sums (sort_gates gates) in
        (chaos_step fl format chaos
          (cap_step fl format sums.hard_fail (trace_gate_score fl format sums)).1).1
        ≡ final_score fl (default_tuned_config fl) gates chaos
  unfolding final_score
  traced_score gates chaos =
      let (t, e, h) = sums-sort_gates fl gates in
      let sums = sum_gates no_sums (sort_gates gates) in
      ap (λ s. (chaos_step fl format chaos s).1)
        (cap_step-capped sums.hard_fail (trace_gate_score fl format sums)
          ∙ ap₂ (capped fl) h (trace_gate_score-gate_score gates))
      ∙ chaos_step-penalised chaos _

  -- Each step of the trace adds up in floating point, as far as the final one.
  unfoldable pub exact_steps : List (TraceStep F) → Bool
  exact_steps [] = true
  exact_steps (s ∷ steps) =
      let rest = exact_steps steps in
      if s.stage == "FINAL"
      then true
      else fl.eq s.score_after (fl.add s.score_before s.impact) && rest

  -- The steps lead from one score to another, each from where the one before it ended.
  abbrev Leads : F → List (TraceStep F) → F → Type 0
  Leads start [] end = start ≡ end
  Leads start (s ∷ steps) end =
      let rest = Leads s.score_after steps end in
      (s.score_before ≡ start) × (if s.stage == "FINAL" then start ≡ end else rest)

  replay_steps-Leads :
      (steps : List (TraceStep F)) (start end final : F)
      → Leads start steps end
      → is_score fl format (replay_steps fl format start steps) final
        ≡ (exact_steps steps && fl.eq end final)
  unfolding replay_steps exact_steps
  replay_steps-Leads [] start end final h = rw h refl
  replay_steps-Leads (s ∷ steps) start end final (before, h) =
      elim (Bool-cases (s.stage == "FINAL")) [
        | inl last ↦
            let reached : start ≡ end =
              subst (λ b. if b then start ≡ end else Leads s.score_after steps end) last h in
            rw last (ap (λ x. fl.eq x final) reached)
        | inr more ↦
            let led : Leads s.score_after steps end =
              subst (λ b. if b then start ≡ end else Leads s.score_after steps end) more h in
            let rest = replay_steps-Leads steps s.score_after end final led in
            elim (Bool-cases (fl.eq s.score_after (fl.add s.score_before s.impact))) [
              | inl e ↦
                  let same = ap (λ x. fl.eq s.score_after (fl.add x s.impact)) (sym before) ∙ e in
                  rw (more, e, same) rest
              | inr e ↦
                  let same = ap (λ x. fl.eq s.score_after (fl.add x s.impact)) (sym before) ∙ e in
                  rw (more, e, same) refl
            ]
      ]

  after_gates : Bool → F → Option ChaosReport → PolicyDecision F → List (TraceStep F)
  after_gates hard_fail score chaos decision =
      let (caps, after) = cap_step fl format hard_fail score in
      let (penalties, last) = chaos_step fl format chaos after in
      caps ++ penalties ++ final_step fl format last decision.score ∷ []

  penalties-Leads :
      (chaos : Option ChaosReport) (score : F) (decision : PolicyDecision F)
      → Leads score
          ((chaos_step fl format chaos score).0
            ++ final_step fl format (chaos_step fl format chaos score).1 decision.score ∷ [])
          (chaos_step fl format chaos score).1
  unfolding chaos_step final_step
  penalties-Leads none score decision = (refl, refl)
  penalties-Leads (some c) score decision = elim (Bool-cases c.active) [
    | inl e ↦ rw e (refl, (refl, refl))
    | inr e ↦ rw e (refl, refl)
  ]

  after_gates-Leads :
      (hard_fail : Bool) (score : F) (chaos : Option ChaosReport) (decision : PolicyDecision F)
      → Leads score
          (after_gates hard_fail score chaos decision)
          (chaos_step fl format chaos (cap_step fl format hard_fail score).1).1
  unfolding after_gates cap_step
  after_gates-Leads hard_fail score chaos decision =
      elim (Bool-cases (hard_fail && fl.lt (fl.of_int (pos 60)) score)) [
        | inl e ↦ rw e (refl, penalties-Leads chaos (fl.of_int (pos 60)) decision)
        | inr e ↦ rw e (penalties-Leads chaos score decision)
      ]

  trace_steps_refuted :
      (gates : List GateResult) (cert : Option CertificationResult) (chaos : Option ChaosReport)
      (decision : PolicyDecision F)
      → is_refuted cert ≡ true
      → let sums = sum_gates no_sums (sort_gates gates) in
        trace_steps fl format gates cert chaos decision
        ≡ gates_step fl format sums
          ∷ certification_step fl format (trace_gate_score fl format sums)
          ∷ []
  unfolding trace_steps
  trace_steps_refuted gates cert chaos decision h = rw h refl

  trace_steps_sound :
      (gates : List GateResult) (cert : Option CertificationResult) (chaos : Option ChaosReport)
      (decision : PolicyDecision F)
      → is_refuted cert ≡ false
      → let sums = sum_gates no_sums (sort_gates gates) in
        trace_steps fl format gates cert chaos decision
        ≡ gates_step fl format sums
          ∷ after_gates sums.hard_fail (trace_gate_score fl format sums) chaos decision
  unfolding trace_steps after_gates
  trace_steps_sound gates cert chaos decision h = rw h refl

  score-evaluate :
      (gates : List GateResult) (cert : Option CertificationResult) (chaos : Option ChaosReport)
      → (evaluate fl (default_tuned_config fl) gates cert chaos).score ≡ (
          if is_refuted cert then fl.zero else final_score fl (default_tuned_config fl) gates chaos)
  unfolding evaluate
  score-evaluate gates cert chaos = elim (Bool-cases (is_refuted cert)) [
    | inl e ↦ rw e refl
    | inr e ↦ rw e refl
  ]

  replay_from-Leads :
      {steps : List (TraceStep F)} (s : TraceStep F) (later : List (TraceStep F)) (end final : F)
      → steps ≡ s ∷ later
      → end ≡ final
      → Leads s.score_before (s ∷ later) end
      → replay_from fl format steps final ≡ (exact_steps steps && fl.eq final final)
  unfolding replay_from
  replay_from-Leads s later end final listed same h =
      ap (λ l. replay_from fl format l final) listed
      ∙ replay_steps-Leads (s ∷ later) s.score_before end final h
      ∙ ap₂ (λ l x. exact_steps l && fl.eq x final) (sym listed) same

  -- The trace of a decision that the engine takes with the default configuration replays to the score
  -- of that decision, but for rounding: ReplayEngine.Replay accepts it exactly when every step before
  -- the final one adds up in floating point and the score equals itself (is not a NaN). No law of
  -- floating point is assumed.
  pub replay-build_trace :
      (counter : ℕ) (gates : List GateResult) (cert : Option CertificationResult)
      (chaos : Option ChaosReport)
      → let decision = evaluate fl (default_tuned_config fl) gates cert chaos in
        let trace = (build_trace fl format counter gates cert chaos decision).0 in
        replay fl format trace ≡ (exact_steps trace.steps && fl.eq decision.score decision.score)
  unfolding replay build_trace gates_step certification_step
  replay-build_trace counter gates cert chaos =
      let sums = sum_gates no_sums (sort_gates gates) in
      let score = trace_gate_score fl format sums in
      let decision = evaluate fl (default_tuned_config fl) gates cert chaos in
      elim (Bool-cases (is_refuted cert)) [
        | inl refuted ↦
            replay_from-Leads (gates_step fl format sums) (certification_step fl format score ∷ [])
              fl.zero decision.score (trace_steps_refuted gates cert chaos decision refuted)
              (sym (score-evaluate gates cert chaos ∙ rw refuted refl)) (refl, (refl, refl))
        | inr sound ↦
            let reached =
              score-evaluate gates cert chaos ∙ rw sound (sym (traced_score gates chaos)) in
            replay_from-Leads (gates_step fl format sums)
              (after_gates sums.hard_fail score chaos decision)
              (chaos_step fl format chaos (cap_step fl format sums.hard_fail score).1).1
              decision.score (trace_steps_sound gates cert chaos decision sound) (sym reached)
              (refl, after_gates-Leads sums.hard_fail score chaos decision)
      ]
