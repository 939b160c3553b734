-- ===== src/Evolution/Loop.antt =====
-- internal/policy/evolution/safe_loop_v3.go, rollback.go and rewarder.go: one evolution, under the
-- lock that it holds from start to end. A method call on a nil `*WAL` panics.
pub mod Decision
pub mod Record
pub mod Sequence
use pads_v.Common.{
  ℕ, suc, ◌+◌, ◌≡◌, Bool, true, false, not, ◌&&◌, ◌||◌, String, Option, none, some, List, [], ◌∷◌,
  arith, if◌then◌else◌,
}
use pads_v.Common.Float.{Float}
use pads_v.Common.Int.{ℤ, pos}
use pads_v.Evolution.Types.{Candidate, CycleResult, Event, Mode, Codec, build_reason}
use pads_v.Evolution.Detector.{Detector, new_detector, add, is_stable, is_oscillating, mean_of}
use pads_v.Evolution.File.{File, Disk, IoError}
use pads_v.Evolution.Gate.{Gate, new_gate, orchestrate}
use pads_v.Evolution.Wal.{Entry, Wal, Digest, Written, append, last_entry, store_append}

pub data LoopError : Type 0 where
  rollback_triggered : LoopError
  store_failed : IoError → LoopError

-- The gate points at a detector of its own, or at the loop's (`gate_detector` is `none`). The event
-- store and the WAL may be nil.
pub record Loop (F : Type 0) : Type 0 where
  pub gate : Gate F
  pub gate_detector : Option (Detector F)
  pub detector : Detector F
  pub wal : Option (Wal F)
  pub store : Option File
  pub mode : Mode
  pub sequence : ℕ
  pub current_seed : ℤ

-- What the clock and the disk answer during one call.
pub record World : Type 0 where
  pub now : ℕ
  pub wal_disk : Disk
  pub store_opened : Bool
  pub store_written : Written

-- `crashed` is a panic: the call does not return.
pub data Call (F : Type 0) : Type 0 where
  returned : Loop F → Bool → Option LoopError → Call F
  crashed : Call F

module _ (fl : Float) where
  open fl use {F}

  unfoldable pub is_unstable : Detector F → Bool
  is_unstable d = not (is_stable fl d) || is_oscillating fl d

  -- NewSafeEvolutionLoopV3Minimal: one detector for the loop and the gate, no WAL, no store.
  unfoldable pub minimal_loop : Mode → Loop F
  minimal_loop mode = record {
    gate = new_gate fl;
    gate_detector = none;
    detector = new_detector 10 (fl.ratio (pos 1) (pos 2));
    wal = none;
    store = none;
    mode = mode;
    sequence = 0;
    current_seed = pos 0;
  }

  -- The first call of Evolve: the evaluation, which moves the gate and the detector it points at.
  unfoldable pub evaluate_step : Loop F → Candidate → Candidate → F → Loop F × CycleResult F × Bool
  evaluate_step l candidate current weight = elim l.gate_detector [
    | none ↦
        let (gate', detector', result, accepted) =
          orchestrate fl l.gate l.detector candidate current weight in
        (record l { gate = gate'; detector = detector' }, result, accepted)
    | some own ↦
        let (gate', own', result, accepted) = orchestrate fl l.gate own candidate current weight in
        (record l { gate = gate'; gate_detector = some own' }, result, accepted)
  ]

  module _ (entries : Codec (Entry F)) (events : Codec (Event F)) (digest : Digest F)
      (io : World) where
    -- An error of the WAL is logged and dropped.
    unfoldable pub wal_step : Loop F → Candidate → Candidate → F → Loop F
    wal_step l candidate current weight = elim l.wal [
      | none ↦ l
      | some w ↦
          let (w', entry, failed) =
            append entries digest io.now io.wal_disk w candidate.score current.score weight
              l.mode in
          record l { wal = some w' }
    ]

    abbrev event_for : Loop F → Bool → Candidate → Candidate → F → Event F
    event_for l accepted candidate current weight =
        let stability = mean_of fl l.detector.window in
        record {
          sequence = l.sequence;
          candidate_score = candidate.score;
          current_score = current.score;
          weight = weight;
          mode = l.mode;
          bandit_seed = l.current_seed;
          gate_variance = fl.zero;
          gate_threshold = fl.zero;
          stability_score = stability;
          reason =
              build_reason fl accepted candidate.score current.score
                (fl.sub stability (fl.of_int current.score));
        }

    unfoldable pub store_step : Loop F → Event F → Bool → Call F
    store_step l ev accepted = elim l.store [
      | none ↦ returned l accepted none
      | some file ↦
          let (file', failed) = store_append events io.store_opened io.store_written file ev in
          elim failed [
            | none ↦ returned (record l { store = some file' }) accepted none
            | some e ↦ returned (record l { store = some file' }) accepted (some (store_failed e))
          ]
    ]

    -- RestoreStableState reads the last entry of the WAL, which has to be there.
    abbrev rolled_back : Loop F → Call F
    rolled_back l = elim l.wal [
      | none ↦ crashed
      | some _ ↦ returned l false (some rollback_triggered)
    ]

    -- What follows the two records of the score.
    unfoldable pub settle : Loop F → Bool → Candidate → Candidate → F → Call F
    unfolding is_unstable store_step
    settle l accepted candidate current weight =
        let next : Loop F = record l { sequence = l.sequence + 1 } in
        if is_unstable l.detector
        then rolled_back l
        else store_step next (event_for next accepted candidate current weight) accepted

    unfoldable pub evolve : Loop F → Candidate → Candidate → F → Call F
    unfolding evaluate_step wal_step settle
    evolve l candidate current weight =
        let (evaluated, result, accepted) = evaluate_step l candidate current weight in
        let logged = wal_step evaluated candidate current weight in
        settle (record logged { detector = add logged.detector (fl.of_int result.score) }) accepted
          candidate current weight

  -- StabilityScore
  unfoldable pub stability_score : Loop F → F
  stability_score l = mean_of fl l.detector.window

  -- DeltaRewarder.ComputeReward
  unfoldable pub compute_reward : F → F → Bool → F
  compute_reward old_stability new_stability accepted =
      if accepted then fl.sub new_stability old_stability else fl.zero
