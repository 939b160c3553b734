-- ===== src/Evolution/Gate.antt =====
-- internal/policy/evolution/stability_gate.go, evaluator.go, orchestrator.go and controller.go. The
-- detector that a gate points at is passed beside it: it may be the one of the loop.
use pads_v.Common.{ℕ, ◌≡◌, ap, Bool, false, ◌&&◌, List, [], arith, leb, if◌then◌else◌, length, ◌==◌}
use pads_v.Common.Float.{Float}
use pads_v.Common.Int.{ℤ, pos, ◌+ℤ◌, leb_ℤ, ltb_ℤ}
use pads_v.Evolution.Types.{Candidate, CycleResult, Mode, mode_locked}
use pads_v.Evolution.Detector.{
  Detector, new_detector, add, slide, is_stable, sum_from, sum_squares_from, count_float,
}

pub record Gate (F : Type 0) : Type 0 where
  pub threshold : F
  pub variance_threshold : F
  pub adaptive_factor : F
  pub max_window : ℕ
  pub long_window : List F

pub record GateState (F : Type 0) : Type 0 where
  pub long_window : List F
  pub detector_window : List F
  pub threshold : F
  pub variance_thresh : F
  pub adaptive_factor : F
  pub max_window : ℕ

module _ (fl : Float) where
  open fl use {F}

  -- NewStabilityGateWithDetector: 0.5, 10, 2 and a window of 10
  unfoldable pub new_gate : Gate F
  new_gate = record {
    threshold = fl.ratio (pos 1) (pos 2);
    variance_threshold = fl.of_int (pos 10);
    adaptive_factor = fl.of_int (pos 2);
    max_window = 10;
    long_window = [];
  }

  unfoldable pub average : List F → F
  average window = fl.div (sum_from fl fl.zero window) (count_float fl window)

  unfoldable pub standard_deviation : List F → F → F
  standard_deviation window mean =
      fl.sqrt (fl.div (sum_squares_from fl mean fl.zero window) (count_float fl window))

  abbrev capped : F → F
  capped threshold =
      if fl.lt (fl.of_int (pos 100)) threshold then fl.of_int (pos 100) else threshold

  -- The threshold that a score has to reach, after the score has entered the window.
  unfoldable pub dynamic_threshold : Gate F → F
  unfolding average standard_deviation
  dynamic_threshold g =
      if leb 2 (length g.long_window)
      then capped (
          fl.add g.threshold
            (fl.mul g.adaptive_factor (standard_deviation g.long_window (average g.long_window))))
      else g.threshold

  abbrev remember : Gate F → F → Gate F
  remember g score = record g { long_window = slide g.max_window g.long_window score }

  unfoldable pub check : Gate F → Detector F → ℤ → Gate F × Detector F × Bool
  unfolding dynamic_threshold
  check g detector score =
      let seen = fl.of_int score in
      let detector' = add detector seen in
      let g' = remember g seen in
      (g', detector', fl.le (dynamic_threshold g') seen && is_stable fl detector')

  unfoldable pub export_state : Gate F → Detector F → GateState F
  export_state g detector = record {
    long_window = g.long_window;
    detector_window = detector.window;
    threshold = g.threshold;
    variance_thresh = g.variance_threshold;
    adaptive_factor = g.adaptive_factor;
    max_window = g.max_window;
  }

  -- The gate gets a detector of its own.
  unfoldable pub import_state : GateState F → Gate F × Detector F
  unfolding new_detector
  import_state s = (
    record {
      threshold = s.threshold;
      variance_threshold = s.variance_thresh;
      adaptive_factor = s.adaptive_factor;
      max_window = s.max_window;
      long_window = s.long_window;
    },
    record (new_detector s.max_window s.variance_thresh) { window = s.detector_window },
  )

  -- MultiCycleEvaluator.Evaluate
  unfoldable pub evaluate_cycle : Candidate → Candidate → F → CycleResult F
  evaluate_cycle a b weight =
      let score_a = fl.to_int (fl.mul (fl.of_int a.score) weight) in
      let score_b = fl.to_int (fl.mul (fl.of_int b.score) weight) in
      let sum = score_a +ℤ score_b in
      record {
        score = score_a;
        confidence =
            if ltb_ℤ (pos 0) sum
            then fl.div (fl.of_int score_a) (fl.of_int sum)
            else fl.ratio (pos 1) (pos 2);
        accepted = leb_ℤ score_b score_a;
      }

  -- Orchestrator.Evaluate, which checks the gate whether or not the candidate is better.
  unfoldable pub orchestrate :
      Gate F → Detector F → Candidate → Candidate → F → Gate F × Detector F × CycleResult F × Bool
  unfolding evaluate_cycle check
  orchestrate g detector a b weight =
      let result = evaluate_cycle a b weight in
      let (g', detector', gate_ok) = check g detector result.score in
      (g', detector', result, result.accepted && gate_ok)

  -- Controller.Decide
  unfoldable pub decide : Mode → ℤ → ℤ → F → Bool
  decide mode candidate current confidence =
      if mode == mode_locked
      then false
      else if fl.lt confidence (fl.ratio (pos 2) (pos 5))
      then false
      else leb_ℤ current candidate

  -- For a gate whose detector has the gate's window size and variance threshold, the gate and the
  -- detector that are imported from their exported state check any score alike, state and verdict.
  check-import_state :
      (g : Gate F) (detector : Detector F) (score : ℤ)
      → detector.size ≡ g.max_window
      → detector.variance_threshold ≡ g.variance_threshold
      → (let (g', detector') = import_state (export_state g detector) in check g' detector' score)
        ≡ check g detector score
  unfolding import_state export_state
  check-import_state g detector score sizes thresholds =
      ap (λ d. check g d score) (Detector_path sizes thresholds)
    where
      Detector_path :
          detector.size ≡ g.max_window
          → detector.variance_threshold ≡ g.variance_threshold
          → record (new_detector g.max_window g.variance_threshold) { window = detector.window }
            ≡ detector
      Detector_path s t = ground arith
