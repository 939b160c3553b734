-- ===== src/Policy/Samples/Audits.antt =====
-- A trace, a shadow run, a proposal and a lesson.
use pads_v.Common.{◌≡◌, refl, false, ◌&&◌, none, some, List, [], ◌∷◌}
use pads_v.Common.Int.{ℤ, pos, ◌≤ℤ◌, ◌+ℤ◌, ◌-ℤ◌, ◌*ℤ◌}
use pads_v.Common.Table.{lookup, insert}
use pads_v.Evolution.Samples.{whole}
use pads_v.Policy.ConfigStore.{new_config_store}
use pads_v.Policy.Engine.{GateResult, evaluate, default_tuned_config, in_map}
use pads_v.Policy.Explain.{Format, PolicyTrace, build_trace, replay}
use pads_v.Policy.Explain.Agreement.{exact_steps, replay-build_trace}
use pads_v.Policy.Shadow.{
  GateInput, Hashing, ShadowEvaluator, new_shadow_evaluator, evaluate_shadow,
}
use pads_v.Policy.Shadow.Repeat.{evaluate_shadow-repeat}
use pads_v.Policy.Change.{Validator, new_validator, validate, proposal_key}
use pads_v.Policy.Change.Validated.{IsSound, IsHonest, validate-IsSound}
use pads_v.Policy.Learner.{Digits, learn_from}
use pads_v.Policy.Learner.Bounds.{Moved, AtMostFifty, learn_from-Moved}
use pads_v.Policy.Samples.{config, store, gates, certificate}

abbrev format : Format
format = record { decimal = λ n. "1"; list = λ names. "[]" }

abbrev trace : PolicyTrace ℤ
trace =
    (build_trace whole format 0 gates certificate none
      (evaluate whole (default_tuned_config whole) gates certificate none)).0

abbrev decided : ℤ
decided = (evaluate whole (default_tuned_config whole) gates certificate none).score

replay-build_trace_example :
    replay whole format trace ≡ (exact_steps whole format trace.steps && whole.eq decided decided)
replay-build_trace_example = replay-build_trace whole format 0 gates certificate none

abbrev input : GateInput
input = record { gates = gates; cert = certificate; chaos = none }

abbrev hashing : Hashing ℤ
hashing = record {
  config_json = λ cfg. some "config";
  input_json = λ i. some "input";
  sha256_hex = λ text. text;
}

abbrev evaluator : ShadowEvaluator ℤ
evaluator = new_shadow_evaluator whole (new_config_store whole)

evaluate_shadow-repeat_example :
    let (first, s') = evaluate_shadow whole hashing evaluator (config 80) (input ∷ []) store in
    evaluate_shadow whole hashing s' (config 80) (input ∷ []) (new_config_store whole (config 95))
    ≡ (record first { accepted = whole.lt first.current_avg first.candidate_avg }, s')
evaluate_shadow-repeat_example =
    evaluate_shadow-repeat whole hashing evaluator (config 80) input [] store
      (new_config_store whole (config 95))

abbrev validator : Validator ℤ
validator = new_validator whole (new_config_store whole)

new_validator-IsSound : IsSound whole validator.cache
unfolding new_validator
new_validator-IsSound = tt

validate-IsSound_example :
    let (p, v') = validate whole hashing 3 validator (config 90) (config 80) (input ∷ []) store in
    IsSound whole v'.cache
    × (p.id ≡ proposal_key whole hashing (config 90) (config 80) (input ∷ []))
    × IsHonest whole p
    × (validate whole hashing 9 v' (config 90) (config 80) (input ∷ []) store ≡ (p, v'))
validate-IsSound_example =
    validate-IsSound whole hashing 3 9 validator (config 90) (config 80) (input ∷ []) store store
      new_validator-IsSound

abbrev digits : Digits ℤ
digits = record { one_digit = λ x. "1.0"; two_digits = λ x. "1.00" }

-- The gate of the configuration fails.
abbrev failures : List GateResult
failures = record { reason = ""; name = "syntax_gate"; passed = false; severity = "high" } ∷ []

abbrev failed_trace : PolicyTrace ℤ
failed_trace =
    (build_trace whole format 1 failures certificate none
      (evaluate whole (config 90) failures certificate none)).0

raised_to_fifty :
    in_map
      (learn_from whole digits (pos 1) (failed_trace ∷ []) (config 90)).0.gate_weights
      "syntax_gate"
    ≡ some (pos 50)
unfolding learn_from build_trace evaluate lookup ◌+ℤ◌ ◌-ℤ◌ ◌*ℤ◌ insert
raised_to_fifty = refl

learn_from-Moved_example :
    let tuned = (learn_from whole digits (pos 1) (failed_trace ∷ []) (config 90)).0 in
    Moved
      (λ w. w ≤ℤ pos 50)
      "syntax_gate"
      (in_map (config 90).gate_weights "syntax_gate")
      (in_map tuned.gate_weights "syntax_gate")
    × Moved
        (AtMostFifty whole)
        "syntax_gate"
        (in_map (config 90).chaos_penalties "syntax_gate")
        (in_map tuned.chaos_penalties "syntax_gate")
learn_from-Moved_example =
    learn_from-Moved whole digits (pos 1) (failed_trace ∷ []) (config 90) "syntax_gate"
