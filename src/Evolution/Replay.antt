-- ===== src/Evolution/Replay.antt =====
-- internal/policy/evolution/replay_engine.go: the state that the stored events lead to.
pub mod Rebuilt
use pads_v.Common.{ℕ, Bool, true, false, ◌||◌, List, [], ◌∷◌, if◌then◌else◌}
use pads_v.Common.Float.{Float}
use pads_v.Common.Int.{ℤ, pos}
use pads_v.Common.Table.{Table}
use pads_v.Evolution.Types.{Event, Mode, mode_stable}
use pads_v.Evolution.Detector.{Detector, new_detector, slide, add, mean_of}
use pads_v.Evolution.Gate.{Gate, GateState, new_gate, import_state, export_state}

pub record SystemState (F : Type 0) : Type 0 where
  pub bandit_arms : Table F
  pub bandit_seed : ℤ
  pub gate : GateState F
  pub detector_window : List F
  pub mode : Mode
  pub sequence : ℕ
  pub stability_score : F

-- The variables of Rebuild: the gate with the detector it points at, and the detector of its own.
-- The bandit never gets an arm.
pub record Rebuild (F : Type 0) : Type 0 where
  pub state : SystemState F
  pub detector : Detector F
  pub gate : Gate F
  pub gate_detector : Detector F

module _ (fl : Float) where
  open fl use {F}

  unfoldable pub start_rebuild : Rebuild F
  unfolding new_gate new_detector
  start_rebuild = record {
    state = record {
      bandit_arms = [];
      bandit_seed = pos 0;
      gate = record {
        long_window = [];
        detector_window = [];
        threshold = fl.ratio (pos 1) (pos 2);
        variance_thresh = fl.of_int (pos 10);
        adaptive_factor = fl.of_int (pos 2);
        max_window = 10;
      };
      detector_window = [];
      mode = mode_stable;
      sequence = 0;
      stability_score = fl.zero;
    };
    detector = new_detector 5 (fl.of_int (pos 10));
    gate = new_gate fl;
    gate_detector = new_detector 5 (fl.of_int (pos 10));
  }

  abbrev has_gate_data : Event F → Bool
  has_gate_data ev = fl.lt fl.zero ev.gate_variance || fl.lt fl.zero ev.gate_threshold

  -- The gate after an event, with its detector.
  unfoldable pub gate_after : Event F → Gate F → Detector F → Detector F → Gate F × Detector F
  gate_after ev gate gate_detector detector =
      let restored = import_state fl (record {
        long_window = gate.long_window;
        detector_window = detector.window;
        threshold = ev.gate_threshold;
        variance_thresh = fl.of_int (pos 10);
        adaptive_factor = fl.of_int (pos 2);
        max_window = 10;
      }) in
      if has_gate_data ev then restored else (gate, gate_detector)

  unfoldable pub rebuild_event : Rebuild F → Event F → Rebuild F
  unfolding gate_after
  rebuild_event r ev =
      let score = fl.of_int ev.candidate_score in
      let detector' = add r.detector score in
      let slid = record r.gate { long_window = slide r.gate.max_window r.gate.long_window score } in
      let (gate', gate_detector') = gate_after ev slid r.gate_detector detector' in
      record {
        state = record {
          bandit_arms = [];
          bandit_seed = ev.bandit_seed;
          gate = export_state fl gate' gate_detector';
          detector_window = detector'.window;
          mode = ev.mode;
          sequence = ev.sequence;
          stability_score = elim detector'.window [
            | [] ↦ r.state.stability_score
            | v ∷ vs ↦ mean_of fl detector'.window
          ];
        };
        detector = detector';
        gate = gate';
        gate_detector = gate_detector';
      }

  unfoldable pub rebuild_from : Rebuild F → List (Event F) → Rebuild F
  unfolding rebuild_event
  rebuild_from r [] = r
  rebuild_from r (ev ∷ events) = rebuild_from (rebuild_event r ev) events

  -- Rebuild
  unfoldable pub rebuild : List (Event F) → SystemState F
  unfolding rebuild_from start_rebuild
  rebuild events = (rebuild_from start_rebuild events).state
