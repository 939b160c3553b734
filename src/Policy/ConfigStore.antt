-- ===== src/Policy/ConfigStore.antt =====
-- internal/policy/config_store.go: the active configuration, its history, and the drift of scores.
pub mod Undo
use pads_v.Common.{
  ℕ, suc, ◌+◌, ◌-◌, Bool, true, false, Option, none, some, List, [], ◌∷◌, ◌++◌, if◌then◌else◌, ltb,
  leb, eqb, length, drop,
}
use pads_v.Common.Float.{Float}
use pads_v.Common.Int.{pos}
use pads_v.Policy.Config.{TunedConfig}

pub record ConfigStore (F : Type 0) : Type 0 where
  pub config : TunedConfig F
  pub history : List (TunedConfig F)
  pub ema_alpha : F
  pub score_variance : F
  pub score_mean : F
  pub score_count : ℕ
  pub instability : F

abbrev pub max_history : ℕ
max_history = 10

-- The last of the configurations, and those before it.
unfoldable pub split_last : {A : Type 0} → List A → Option (List A × A)
split_last [] = none
split_last (a ∷ l) =
    let rest = split_last l in
    elim rest [ none ↦ some ([], a) | some (before, z) ↦ some (a ∷ before, z) ]

abbrev pub or_keep : {A : Type 0} → Option A → Option A → Option A
or_keep none old = old
or_keep (some new) old = some new

module _ (fl : Float) where
  open fl use {F}

  unfoldable pub new_config_store : TunedConfig F → ConfigStore F
  new_config_store initial = record {
    config = initial;
    history = [];
    ema_alpha = fl.ratio (pos 3) (pos 10);
    score_variance = fl.zero;
    score_mean = fl.zero;
    score_count = 0;
    instability = fl.zero;
  }

  abbrev one : F
  one = fl.of_int (pos 1)

  -- UpdateScore
  unfoldable pub update_score : F → ConfigStore F → ConfigStore F
  update_score score s =
      let n = s.score_count + 1 in
      let count = fl.of_int (pos n) in
      let delta = fl.sub score s.score_mean in
      let mean = fl.add s.score_mean (fl.div delta count) in
      let variance =
        fl.div
          (fl.add (fl.mul (fl.of_int (pos s.score_count)) s.score_variance)
            (fl.mul delta (fl.sub score mean)))
          count in
      let cv = fl.div (fl.sqrt variance) mean in
      if eqb n 1 then record s { score_count = n; score_mean = score } else record s {
        score_count = n;
        score_mean = mean;
        score_variance = variance;
        instability =
            if leb 5 n then fl.min one (fl.mul cv (fl.of_int (pos 10))) else s.instability;
      }

  abbrev half : F
  half = fl.ratio (pos 1) (pos 2)

  unfoldable pub should_update : ConfigStore F → Bool
  should_update s = if ltb s.score_count 5 then false else fl.le s.instability half

  unfoldable pub adaptive_alpha : ConfigStore F → F
  adaptive_alpha s =
      if fl.lt half s.instability
      then fl.mul s.ema_alpha (fl.ratio (pos 3) (pos 10))
      else s.ema_alpha

  -- ema
  abbrev pub ema : F → F → F → F
  ema old new alpha = fl.add (fl.mul alpha new) (fl.mul (fl.sub one alpha) old)

  -- The history is what it was with the current configuration at its end, ten at most.
  abbrev pub remember : List (TunedConfig F) → TunedConfig F → List (TunedConfig F)
  remember history config =
      let grown = history ++ config ∷ [] in
      if ltb max_history (length grown) then drop (length grown - max_history) grown else grown

  unfoldable pub update : TunedConfig F → ConfigStore F → ConfigStore F
  unfolding adaptive_alpha
  update cfg s =
      let alpha = adaptive_alpha s in
      record s {
        history = remember s.history s.config;
        config = record {
          gate_weights = or_keep cfg.gate_weights s.config.gate_weights;
          chaos_penalties = or_keep cfg.chaos_penalties s.config.chaos_penalties;
          threshold_pass = ema s.config.threshold_pass cfg.threshold_pass alpha;
          threshold_warn = ema s.config.threshold_warn cfg.threshold_warn alpha;
          threshold_fail = ema s.config.threshold_fail cfg.threshold_fail alpha;
          hard_fail_gates = or_keep cfg.hard_fail_gates s.config.hard_fail_gates;
        };
      }

  unfoldable pub rollback : ConfigStore F → ConfigStore F × Bool
  unfolding split_last
  rollback s = elim (split_last s.history) [
    | none ↦ (s, false)
    | some (before, last) ↦ (record s { config = last; history = before }, true)
  ]
