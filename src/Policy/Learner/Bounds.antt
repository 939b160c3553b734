-- ===== src/Policy/Learner/Bounds.antt =====
-- How far the learner moves the weights and the penalties.
use pads_v.Common.{
  ℕ, ◌≡◌, refl, ◌∙◌, ◌⊎◌, String, false, not, ◌&&◌, Option, none, some, List, [], ◌∷◌, arith, ◌==◌,
  Bool-cases, inl, inr, ltb, length,
}
use pads_v.Common.Float.{Float}
use pads_v.Common.Int.{ℤ, pos, ltb_ℤ, ◌≤ℤ◌, eqb_ℤ}
use pads_v.Common.Table.{Table, lookup, insert, lookup-insert}
use pads_v.Policy.Config.{TunedConfig}
use pads_v.Policy.Explain.{PolicyTrace}
use pads_v.Policy.Engine.{in_map}
use pads_v.Policy.Learner.{
  Adjustment, Digits, raised_weight, raised_penalty, tune_weights, tune_penalties, learn_from,
  lower_thresholds, or_nil, rate, counter, tune, count_traces, sort_scores, median,
}

-- A key keeps its value, or gets one that is good.
abbrev pub Moved : {V : Type 0} → (V → Type 0) → String → Option V → Option V → Type 0
Moved {V} Good name old new = (new ≡ old) ⊎ ((v : V) × (new ≡ some v) × Good v)

Moved-insert :
    {V : Type 0} {Good : V → Type 0} (name key : String) (v : V) (table : Table V) (new : Option V)
    → Good v
    → Moved Good name (lookup name (insert key v table)) new
    → Moved Good name (lookup name table) new
Moved-insert name key v table new good (inr found) = inr found
Moved-insert name key v table new good (inl same) =
    let inserted = same ∙ lookup-insert key name v table in
    elim (Bool-cases (key == name)) [
      | inl e ↦ inr (v, inserted ∙ rw e refl, good)
      | inr e ↦ inl (inserted ∙ rw e refl)
    ]

module _ (fl : Float) where
  open fl use {F}

  raised_weight_bound : (r : F) (w : ℤ) → raised_weight fl r w ≤ℤ pos 50
  unfolding raised_weight
  raised_weight_bound r w =
      let raised = fl.to_int (fl.mul (fl.of_int w) (fl.add (fl.of_int (pos 1)) r)) in
      elim (Bool-cases (ltb_ℤ (pos 50) raised)) [
        | inl e ↦ rw e (omega arith)
        | inr e ↦ rw e (ground arith)
      ]

  -- A penalty that is 50, or not above it.
  abbrev pub AtMostFifty : F → Type 0
  AtMostFifty p = (p ≡ fl.of_int (pos 50)) ⊎ (fl.lt (fl.of_int (pos 50)) p ≡ false)

  raised_penalty-AtMostFifty : (r p : F) → AtMostFifty (raised_penalty fl r p)
  unfolding raised_penalty
  raised_penalty-AtMostFifty r p =
      elim (Bool-cases (fl.lt (fl.of_int (pos 50)) (fl.mul p (fl.add (fl.of_int (pos 1)) r)))) [
        | inl e ↦ rw e (inl refl)
        | inr e ↦ rw e (inr e)
      ]

  module _ (digits : Digits F) (r : F) (runs : ℕ) where
    tune_weights-Moved :
        (fails : Table ℕ) (weights tuned : Table ℤ) (adjustments : List (Adjustment F))
        (name : String)
        → Moved
            (λ w. w ≤ℤ pos 50)
            name
            (lookup name tuned)
            (lookup name (tune_weights fl digits r runs fails weights tuned adjustments).0)
    unfolding tune_weights
    tune_weights-Moved fails [] tuned adjustments name = inl refl
    tune_weights-Moved fails ((key, w) ∷ weights) tuned adjustments name =
        let raised = raised_weight fl r w in
        elim (Bool-cases (
          fl.lt (fl.ratio (pos 3) (pos 10)) (rate fl (counter (lookup key fails)) runs)
          && not (eqb_ℤ raised w))) [
            | inl e ↦
                rw (e, tune_weights)
                  (Moved-insert name key raised tuned _ (raised_weight_bound r w)
                    (tune_weights-Moved fails weights (insert key raised tuned) _ name))
            | inr e ↦ rw (e, tune_weights) (tune_weights-Moved fails weights tuned adjustments name)
          ]

    abbrev penalty_at : String → Table F → F
    penalty_at mode penalties = elim (lookup mode penalties) [ none ↦ fl.zero | some p ↦ p ]

    tune_penalties-Moved :
        (penalties : Table F) (modes : Table ℕ) (tuned : Table F)
        (adjustments : List (Adjustment F)) (name : String)
        → Moved AtMostFifty name
            (lookup name tuned)
            (lookup name (tune_penalties fl digits r runs penalties modes tuned adjustments).0)
    unfolding tune_penalties
    tune_penalties-Moved penalties [] tuned adjustments name = inl refl
    tune_penalties-Moved penalties ((mode, n) ∷ modes) tuned adjustments name =
        let raised = raised_penalty fl r (penalty_at mode penalties) in
        elim (Bool-cases (
          fl.lt (fl.ratio (pos 2) (pos 10)) (rate fl n runs)
          && not (fl.eq raised (penalty_at mode penalties)))) [
            | inl e ↦
                rw (e, tune_penalties)
                  (Moved-insert name mode raised tuned _
                    (raised_penalty-AtMostFifty r (penalty_at mode penalties))
                    (tune_penalties-Moved penalties modes (insert mode raised tuned) _ name))
            | inr e ↦
                rw (e, tune_penalties) (tune_penalties-Moved penalties modes tuned adjustments name)
          ]

  lower_thresholds-maps :
      (digits : Digits F) (m : Option F) (tuned : TunedConfig F) (adjustments : List (Adjustment F))
      → ((lower_thresholds fl digits m tuned adjustments).0.gate_weights ≡ tuned.gate_weights)
        × ((lower_thresholds fl digits m tuned adjustments).0.chaos_penalties
            ≡ tuned.chaos_penalties)
  unfolding lower_thresholds
  lower_thresholds-maps digits none tuned adjustments = (refl, refl)
  lower_thresholds-maps digits (some m) tuned adjustments =
      elim (Bool-cases (fl.lt m (fl.of_int (pos 60)))) [
        | inl e ↦ rw (e, lower_thresholds) (refl, refl)
        | inr e ↦ rw (e, lower_thresholds) (refl, refl)
      ]

  in_map-or_nil :
      {A : Type 0} (m : Option (Table A)) (name : String) → in_map m name ≡ lookup name (or_nil m)
  unfolding lookup
  in_map-or_nil none name = refl
  in_map-or_nil (some m) name = refl

  tune-Moved :
      (digits : Digits F) (r : F) (traces : List (PolicyTrace F)) (current : TunedConfig F)
      (name : String)
      → let tuned = (tune fl digits r traces current).0 in
        Moved
          (λ w. w ≤ℤ pos 50)
          name
          (lookup name (or_nil current.gate_weights))
          (in_map tuned.gate_weights name)
        × Moved AtMostFifty name
            (lookup name (or_nil current.chaos_penalties))
            (in_map tuned.chaos_penalties name)
  unfolding tune
  tune-Moved digits r traces current name =
      let runs = length traces in
      let counts =
        count_traces fl (record { gate_fails = []; activations = 0; modes = [] }) traces in
      let weights = or_nil current.gate_weights in
      let penalties = or_nil current.chaos_penalties in
      let moved = tune_weights-Moved digits r runs counts.gate_fails weights weights [] name in
      elim (Bool-cases (ltb 0 counts.activations)) [
        | inl e ↦
            rw (e, tune)
              (moved, tune_penalties-Moved digits r runs penalties counts.modes penalties _ name)
        | inr e ↦ rw (e, tune) (moved, inl refl)
      ]

  -- Whatever traces the learner is given, a gate keeps its weight or gets one of 50 at most, and a mode
  -- of chaos keeps its penalty or gets one that is 50 or not above it. A key that the configuration
  -- has not got counts as kept where it stays missing.
  pub learn_from-Moved :
      (digits : Digits F) (r : F) (traces : List (PolicyTrace F)) (current : TunedConfig F)
      (name : String)
      → let tuned = (learn_from fl digits r traces current).0 in
        Moved
          (λ w. w ≤ℤ pos 50)
          name
          (in_map current.gate_weights name)
          (in_map tuned.gate_weights name)
        × Moved AtMostFifty name
            (in_map current.chaos_penalties name)
            (in_map tuned.chaos_penalties name)
  unfolding learn_from
  learn_from-Moved digits r traces current name =
      let (tuned, adjusted) = tune fl digits r traces current in
      let (weights, penalties) =
        lower_thresholds-maps digits (median fl (sort_scores fl traces)) tuned adjusted in
      let moved = tune-Moved digits r traces current name in
      rw
        (
          weights,
          penalties,
          in_map-or_nil current.gate_weights name,
          in_map-or_nil current.chaos_penalties name,
        )
        moved
