-- ===== src/Policy/Learner/Anomaly.antt =====
-- internal/policy/learner/anomaly.go: averages of scores and rates, and the test for an anomaly.
use Prim.Native.String.{◌++◌ as str_append}
use pads_v.Common.{
  ℕ, ◌+◌, ◌-◌, String, Bool, false, ◌&&◌, ◌||◌, List, [], ◌∷◌, ◌++◌, if◌then◌else◌, ltb, eqb, ◌==◌,
  length,
}
use pads_v.Common.Float.{Float}
use pads_v.Common.Int.{pos}
use pads_v.Policy.Engine.{status_text}
use pads_v.Policy.Explain.{TraceStep}
use pads_v.Policy.Log.{PolicyEvent}

pub record AnomalyDetector (F : Type 0) : Type 0 where
  pub alpha : F
  pub ema_score : F
  pub ema_block_rate : F
  pub ema_chaos_rate : F
  pub score_mean : F
  pub score_std_dev : F
  pub count : ℕ
  pub z_score_threshold : F
  pub ema_drop_threshold : F

pub record LearnerSnapshot (F : Type 0) : Type 0 where
  pub ema_score : F
  pub block_rate_ema : F
  pub score_mean : F
  pub score_std_dev : F
  pub event_count : ℕ

-- joinStrings
unfoldable pub join_rest : String → List String → String
join_rest sep [] = ""
join_rest sep (s ∷ strs) = str_append sep (str_append s (join_rest sep strs))

unfoldable pub join_strings : String → List String → String
unfolding join_rest
join_strings sep [] = ""
join_strings sep (s ∷ strs) = str_append s (join_rest sep strs)

module _ (fl : Float) where
  open fl use {F}

  abbrev one : F
  one = fl.of_int (pos 1)

  unfoldable pub new_anomaly_detector : AnomalyDetector F
  new_anomaly_detector = record {
    alpha = fl.ratio (pos 2) (pos 10);
    ema_score = fl.zero;
    ema_block_rate = fl.zero;
    ema_chaos_rate = fl.zero;
    score_mean = fl.zero;
    score_std_dev = fl.zero;
    count = 0;
    z_score_threshold = fl.of_int (pos 2);
    ema_drop_threshold = fl.of_int (pos 20);
  }

  abbrev as_rate : Bool → F
  as_rate b = if b then one else fl.zero

  -- alpha * x + (1 - alpha) * old
  abbrev smooth : F → F → F → F
  smooth alpha x old = fl.add (fl.mul alpha x) (fl.mul (fl.sub one alpha) old)

  -- updateEMA. Its inner tests `d.count == 0` come after the early return for a count of 0.
  unfoldable pub update_ema : F → String → Bool → AnomalyDetector F → AnomalyDetector F
  update_ema score status chaos_active d =
      let blocked = as_rate ((status == "BLOCK") || (status == "FAIL")) in
      let chaos = as_rate chaos_active in
      let n = d.count + 1 in
      let delta = fl.sub score d.score_mean in
      let mean = fl.add d.score_mean (fl.div delta (fl.of_int (pos n))) in
      let before = fl.mul (fl.mul (fl.of_int (pos (n - 1))) d.score_std_dev) d.score_std_dev in
      let spread = fl.mul delta (fl.sub score mean) in
      if eqb d.count 0
      then record d { ema_score = score; score_mean = score; score_std_dev = fl.zero; count = 1 }
      else record d {
        ema_score = smooth d.alpha score d.ema_score;
        ema_block_rate = if eqb d.count 0 then blocked else smooth d.alpha blocked d.ema_block_rate;
        ema_chaos_rate = if eqb d.count 0 then chaos else smooth d.alpha chaos d.ema_chaos_rate;
        count = n;
        score_mean = mean;
        score_std_dev = fl.sqrt (fl.div (fl.add before spread) (fl.of_int (pos n)));
      }

  unfoldable pub is_chaotic : List (TraceStep F) → Bool
  is_chaotic [] = false
  is_chaotic (s ∷ steps) = (s.stage == "CHAOS") || is_chaotic steps

  -- The loop of Replay.
  unfoldable pub replay_events : AnomalyDetector F → List (PolicyEvent F) → AnomalyDetector F
  unfolding update_ema is_chaotic
  replay_events d [] = d
  replay_events d (e ∷ events) =
      let status = status_text e.trace.final_status in
      replay_events (update_ema e.score status (is_chaotic e.trace.steps) d) events

  -- Replay
  unfoldable pub replay_all : List (PolicyEvent F) → AnomalyDetector F → AnomalyDetector F
  unfolding replay_events
  replay_all events d =
      replay_events
        (record d {
          ema_score = fl.zero;
          ema_block_rate = fl.zero;
          ema_chaos_rate = fl.zero;
          score_mean = fl.zero;
          score_std_dev = fl.zero;
          count = 0;
        })
        events

  unfoldable pub anomalies : F → AnomalyDetector F → List String
  anomalies score d =
      let z = fl.div (fl.sub score d.score_mean) d.score_std_dev in
      (if fl.lt fl.zero d.score_std_dev && fl.lt d.z_score_threshold (fl.abs z)
        then "z-score anomaly detected" ∷ []
        else [])
      ++ (if fl.lt d.ema_drop_threshold (fl.sub d.ema_score score)
          then "EMA score drop detected" ∷ []
          else [])

  unfoldable pub is_anomaly : F → AnomalyDetector F → Bool × String
  unfolding anomalies join_strings
  is_anomaly score d =
      let reasons = anomalies score d in
      if ltb d.count 3
      then (false, "not enough data")
      else (ltb 0 (length reasons), join_strings "; " reasons)

  -- Snapshot
  unfoldable pub snapshot : AnomalyDetector F → LearnerSnapshot F
  snapshot d = record {
    ema_score = d.ema_score;
    block_rate_ema = d.ema_block_rate;
    score_mean = d.score_mean;
    score_std_dev = d.score_std_dev;
    event_count = d.count;
  }
