-- ===== src/Policy/Learner/Session.antt =====
-- The learner of internal/policy/learner/learner.go: when it learns, and from what.
use pads_v.Common.{
  ℕ, ◌-◌, ◌*◌, Bool, true, Option, none, some, List, if◌then◌else◌, ltb, leb, length, Result, ok,
  err,
}
use pads_v.Common.Float.{Float}
use pads_v.Common.Int.{pos}
use pads_v.Evolution.Types.{Codec}
use pads_v.Policy.Config.{TunedConfig}
use pads_v.Policy.Explain.{PolicyTrace}
use pads_v.Policy.Log.{PolicyEvent, LogFile, LogError, read_all, load_traces}
use pads_v.Policy.Learner.{LearningReport, Digits, learn_from}
use pads_v.Policy.Learner.Anomaly.{AnomalyDetector, new_anomaly_detector, replay_all}

pub record Learner (F : Type 0) : Type 0 where
  pub learning_rate : F
  pub min_samples : ℕ
  pub min_interval : ℕ
  -- `none` for the zero time
  pub last_learn : Option ℕ
  pub detector : AnomalyDetector F

pub data LearnError : Type 0 where
  too_soon : LearnError
  read_wal : LogError → LearnError
  not_enough_samples : (held wanted : ℕ) → LearnError

abbrev pub Learnt : Type 0 → Type 0
Learnt F = Result LearnError (TunedConfig F × LearningReport F)

module _ (fl : Float) where
  open fl use {F}

  unfoldable pub new_learner : Learner F
  unfolding new_anomaly_detector
  new_learner = record {
    learning_rate = fl.ratio (pos 1) (pos 10);
    min_samples = 5;
    min_interval = 30 * 1000000000;
    last_learn = none;
    detector = new_anomaly_detector fl;
  }

  -- ShouldLearn, shouldLearnLocked
  unfoldable pub should_learn : ℕ → Learner F → Bool
  should_learn now l = elim l.last_learn [
    | none ↦ true
    | some last ↦ leb l.min_interval (now - last)
  ]

  -- Learn, `learn`
  unfoldable pub learn : Digits F → List (PolicyTrace F) → TunedConfig F → Learner F → Learnt F
  unfolding learn_from
  learn digits traces current l =
      if ltb (length traces) l.min_samples
      then err (not_enough_samples (length traces) l.min_samples)
      else ok (learn_from fl digits l.learning_rate traces current)

  abbrev stamp : {A B : Type 0} → Result A B → ℕ → Option ℕ → Option ℕ
  stamp (ok _) now last = some now
  stamp (err _) now last = last

  -- ... from the events that were read
  unfoldable pub learn_events :
      Digits F → ℕ → List (PolicyEvent F) → TunedConfig F → Learner F → Learnt F × Learner F
  unfolding learn replay_all load_traces
  learn_events digits now events current l =
      let learnt = learn digits (load_traces events) current l in
      if ltb (length events) l.min_samples
      then (err (not_enough_samples (length events) l.min_samples), l)
      else (
        learnt,
        record l {
          detector = replay_all fl events l.detector;
          last_learn = stamp learnt now l.last_learn;
        },
      )

  -- LearnFromWAL, at the time `now`
  unfoldable pub learn_from_wal :
      Codec (PolicyEvent F)
      → Digits F
      → (reads : Bool) → ℕ
      → LogFile
      → TunedConfig F
      → Learner F
      → Learnt F × Learner F
  unfolding should_learn read_all learn_events
  learn_from_wal codec digits reads now file current l =
      if should_learn now l
      then elim (read_all codec reads file) [
        | err e ↦ (err (read_wal e), l)
        | ok events ↦ learn_events digits now events current l
      ]
      else (err too_soon, l)
