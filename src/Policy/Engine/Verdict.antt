-- ===== src/Policy/Engine/Verdict.antt =====
-- What a decision of internal/policy/engine.go rests on.
use pads_v.Common.{◌≡◌, ◌↔◌, true, false, Option, List, arith, Bool-cases, inl, inr}
use pads_v.Common.Float.{Float}
use pads_v.Policy.Config.{TunedConfig}
use pads_v.Policy.Engine.{
  pass, GateResult, CertificationResult, ChaosReport, is_refuted, final_score, evaluate,
}

module _ (fl : Float) (cfg : TunedConfig fl.F) (gates : List GateResult)
    (cert : Option CertificationResult) (chaos : Option ChaosReport) where
  -- A run is passed exactly where no certificate calls it non-deterministic and its score, after the
  -- cap of a hard failure and the penalty of chaos, reaches the threshold to pass.
  evaluate-pass : (evaluate fl cfg gates cert chaos).status ≡ pass ↔ (
      (is_refuted cert ≡ false)
      × (fl.le cfg.threshold_pass (final_score fl cfg gates chaos) ≡ true))
  unfolding evaluate
  evaluate-pass = elim (Bool-cases (is_refuted cert)) [
    | inl refuted ↦ (λ h. absurd (ground arith), λ h. absurd (ground arith))
    | inr held ↦ (λ h. (held, ground arith), λ h. ground arith)
  ]
