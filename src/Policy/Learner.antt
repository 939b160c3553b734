-- ===== src/Policy/Learner.antt =====
-- internal/policy/learner/learner.go and types.go: weights, penalties and thresholds learnt from the
-- traces of decisions. A time is in nanoseconds, and `Digits` is fmt's notation of a float.
pub mod Bounds
pub mod Anomaly
pub mod Session
use pads_v.Common.{
  ℕ, zero, suc, ◌+◌, ◌-◌, ◌/◌, ◌*◌, String, Bool, true, false, not, ◌&&◌, ◌||◌, Option, none, some,
  List, [], ◌∷◌, ◌++◌, if◌then◌else◌, ltb, leb, eqb, length, get_elem?, ◌==◌, bit,
}
use Prim.Native.String.{◌++◌ as str_append}
use pads_v.Common.Float.{Float}
use pads_v.Common.Int.{ℤ, pos, ltb_ℤ, eqb_ℤ}
use pads_v.Common.Table.{Table, lookup, insert}
use pads_v.Policy.Config.{TunedConfig}
use pads_v.Policy.Engine.{Status, block}
use pads_v.Policy.Explain.{PolicyTrace, TraceStep}

pub record Adjustment (F : Type 0) : Type 0 where
  pub parameter : String
  pub target : String
  pub old_value : F
  pub new_value : F
  pub reason : String

pub record LearningReport (F : Type 0) : Type 0 where
  pub adjustments : List (Adjustment F)
  pub anomaly_score : F
  pub confidence : F

pub record Digits (F : Type 0) : Type 0 where
  -- %.1f and %.2f
  pub one_digit : F → String
  pub two_digits : F → String

-- What the first loop counts.
pub record Counts : Type 0 where
  pub gate_fails : Table ℕ
  pub activations : ℕ
  pub modes : Table ℕ

-- A missing counter reads 0.
abbrev pub counter : Option ℕ → ℕ
counter none = 0
counter (some n) = n

-- m[key]++
unfoldable pub bump : String → Table ℕ → Table ℕ
bump key m = insert key (suc (counter (lookup key m))) m

unfoldable pub bump_all : List String → Table ℕ → Table ℕ
unfolding bump
bump_all [] m = m
bump_all (key ∷ keys) m = bump_all keys (bump key m)

abbrev pub or_nil : {A : Type 0} → Option (Table A) → Table A
or_nil none = []
or_nil (some m) = m

module _ (fl : Float) where
  open fl use {F}

  unfoldable pub count_step : Counts → TraceStep F → Counts
  unfolding bump bump_all
  count_step c s = record {
    gate_fails = if s.stage == "GATES" then bump_all s.failed_gates c.gate_fails else c.gate_fails;
    activations = c.activations + bit (s.stage == "CHAOS");
    modes = if s.stage == "CHAOS" then bump s.source c.modes else c.modes;
  }

  unfoldable pub count_steps : Counts → List (TraceStep F) → Counts
  unfolding count_step
  count_steps c [] = c
  count_steps c (s ∷ steps) = count_steps (count_step c s) steps

  unfoldable pub count_traces : Counts → List (PolicyTrace F) → Counts
  unfolding count_steps
  count_traces c [] = c
  count_traces c (t ∷ traces) = count_traces (count_steps c t.steps) traces

  abbrev fifty : F
  fifty = fl.of_int (pos 50)

  abbrev one : F
  one = fl.of_int (pos 1)

  -- count / totalRuns
  abbrev pub rate : ℕ → ℕ → F
  rate n runs = fl.div (fl.of_int (pos n)) (fl.of_int (pos runs))

  unfoldable pub raised_weight : F → ℤ → ℤ
  raised_weight learning_rate w =
      let raised = fl.to_int (fl.mul (fl.of_int w) (fl.add one learning_rate)) in
      if ltb_ℤ (pos 50) raised then pos 50 else raised

  unfoldable pub raised_penalty : F → F → F
  raised_penalty learning_rate p =
      let raised = fl.mul p (fl.add one learning_rate) in
      if fl.lt fifty raised then fifty else raised

  module _ (digits : Digits F) (learning_rate : F) (runs : ℕ) where
    -- The loop over the weights of the current configuration.
    unfoldable pub tune_weights :
        Table ℕ → Table ℤ → Table ℤ → List (Adjustment F) → Table ℤ × List (Adjustment F)
    unfolding raised_weight
    tune_weights fails [] tuned adjustments = (tuned, adjustments)
    tune_weights fails ((name, w) ∷ weights) tuned adjustments =
        let fail_rate = rate (counter (lookup name fails)) runs in
        let raised = raised_weight learning_rate w in
        let adjustment : Adjustment F = record {
          parameter = "gate_weight";
          target = name;
          old_value = fl.of_int w;
          new_value = fl.of_int raised;
          reason = str_append "high failure rate: " (digits.two_digits fail_rate);
        } in
        let same = tune_weights fails weights tuned adjustments in
        let changed =
          tune_weights fails weights (insert name raised tuned) (adjustments ++ adjustment ∷ []) in
        if fl.lt (fl.ratio (pos 3) (pos 10)) fail_rate && not (eqb_ℤ raised w)
        then changed
        else same

    -- The loop over the modes of chaos that were active.
    unfoldable pub tune_penalties :
        Table F → Table ℕ → Table F → List (Adjustment F) → Table F × List (Adjustment F)
    unfolding raised_penalty
    tune_penalties penalties [] tuned adjustments = (tuned, adjustments)
    tune_penalties penalties ((mode, n) ∷ modes) tuned adjustments =
        let activation_rate = rate n runs in
        let penalty : F = elim (lookup mode penalties) [ none ↦ fl.zero | some p ↦ p ] in
        let raised = raised_penalty learning_rate penalty in
        let adjustment : Adjustment F = record {
          parameter = "chaos_penalty";
          target = mode;
          old_value = penalty;
          new_value = raised;
          reason = str_append "high activation rate: " (digits.two_digits activation_rate);
        } in
        let same = tune_penalties penalties modes tuned adjustments in
        let changed =
          tune_penalties penalties modes (insert mode raised tuned)
            (adjustments ++ adjustment ∷ []) in
        if fl.lt (fl.ratio (pos 2) (pos 10)) activation_rate && not (fl.eq raised penalty)
        then changed
        else same

  abbrev is_block : Status → Bool
  is_block Status.block = true
  is_block other = false

  unfoldable pub count_blocked : List (PolicyTrace F) → ℕ
  count_blocked [] = 0
  count_blocked (t ∷ traces) = bit (is_block t.final_status) + count_blocked traces

  -- sort.Float64s, which puts a NaN first
  abbrev is_below : F → F → Bool
  is_below a b = fl.lt a b || (not (fl.eq a a) && fl.eq b b)

  unfoldable pub insert_score : F → List F → List F
  insert_score x [] = x ∷ []
  insert_score x (y ∷ scores) = if is_below y x then y ∷ insert_score x scores else x ∷ y ∷ scores

  unfoldable pub sort_scores : List (PolicyTrace F) → List F
  unfolding insert_score
  sort_scores [] = []
  sort_scores (t ∷ traces) = insert_score t.final_score (sort_scores traces)

  -- A threshold of 0 is not set.
  abbrev or_default : ℕ → F → F
  or_default n x = if fl.eq x fl.zero then fl.of_int (pos n) else x

  unfoldable pub median : List F → Option F
  median scores = get_elem? scores (length scores / 2)

  abbrev lowered : TunedConfig F → TunedConfig F
  lowered cfg = record cfg {
    threshold_pass = fl.of_int (pos 85);
    threshold_warn = fl.of_int (pos 65);
    threshold_fail = fl.of_int (pos 45);
  }

  -- The part of `learn` about the median.
  unfoldable pub lower_thresholds :
      Digits F
      → Option F
      → TunedConfig F
      → List (Adjustment F)
      → TunedConfig F × List (Adjustment F)
  lower_thresholds digits none tuned adjustments = (tuned, adjustments)
  lower_thresholds digits (some m) tuned adjustments =
      let adjustment : Adjustment F = record {
        parameter = "thresholds";
        target = "all";
        old_value = fl.of_int (pos 90);
        new_value = fl.of_int (pos 85);
        reason = str_append "median score low: " (digits.one_digit m);
      } in
      if fl.lt m (fl.of_int (pos 60))
      then (lowered tuned, adjustments ++ adjustment ∷ [])
      else (tuned, adjustments)

  -- The weights and the penalties of `learn`, and the thresholds as they are set before the median.
  unfoldable pub tune :
      Digits F → F → List (PolicyTrace F) → TunedConfig F → TunedConfig F × List (Adjustment F)
  unfolding count_traces tune_weights tune_penalties
  tune digits learning_rate traces current =
      let runs = length traces in
      let counts = count_traces (record { gate_fails = []; activations = 0; modes = [] }) traces in
      let weights = or_nil current.gate_weights in
      let penalties = or_nil current.chaos_penalties in
      let (weights', adjusted) =
        tune_weights digits learning_rate runs counts.gate_fails weights weights [] in
      let raised =
        tune_penalties digits learning_rate runs penalties counts.modes penalties adjusted in
      let (penalties', adjusted') =
        if ltb 0 counts.activations then raised else (penalties, adjusted) in
      (
        record {
          gate_weights = some weights';
          chaos_penalties = some penalties';
          threshold_pass = or_default 90 current.threshold_pass;
          threshold_warn = or_default 70 current.threshold_warn;
          threshold_fail = or_default 50 current.threshold_fail;
          hard_fail_gates = some (or_nil current.hard_fail_gates);
        },
        adjusted',
      )

  -- `learn`, with enough traces.
  unfoldable pub learn_from :
      Digits F → F → List (PolicyTrace F) → TunedConfig F → TunedConfig F × LearningReport F
  unfolding tune count_blocked sort_scores median lower_thresholds
  learn_from digits learning_rate traces current =
      let (tuned, adjusted) = tune digits learning_rate traces current in
      let (tuned', adjustments) =
        lower_thresholds digits (median (sort_scores traces)) tuned adjusted in
      let anomaly = rate (count_blocked traces) (length traces) in
      (
        tuned',
        record {
          adjustments = adjustments;
          anomaly_score = anomaly;
          confidence = fl.sub one anomaly;
        },
      )
