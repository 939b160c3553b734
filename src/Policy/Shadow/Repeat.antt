-- ===== src/Policy/Shadow/Repeat.antt =====
-- The cache of the shadow evaluator over repeated calls, and the size of a sample.
use pads_v.Common.{
  ℕ, zero, suc, ◌≤◌, ◌≡◌, refl, none, some, List, ◌∷◌, arith, leb, length, get_elem?, Bool-cases,
  inl, inr, Option-cases,
}
use pads_v.Common.Float.{Float}
use pads_v.Common.Table.{lookup, insert, lookup-insert_self}
use pads_v.Policy.Config.{TunedConfig}
use pads_v.Policy.ConfigStore.{ConfigStore}
use pads_v.Policy.Shadow.{
  GateInput, ShadowResult, Comparison, Hashing, ShadowEvaluator, sample, sample_from, sample_index,
  evaluate_shadow, evaluate_fresh, cached_comparison, shadow_key,
}

module _ (fl : Float) where
  open fl use {F}

  length-sample_from :
      (inputs : List GateInput) (step : F) (i rounds : ℕ)
      → length (sample_from fl inputs step i rounds) ≤ rounds
  unfolding sample_from
  length-sample_from inputs step i zero = omega arith
  length-sample_from inputs step i (suc rounds) =
      let rest = length-sample_from inputs step (suc i) rounds in
      elim (Option-cases (get_elem? inputs (sample_index fl step i))) [
        | inl e ↦ rw (e, length) (omega arith)
        | inr (input, e) ↦ rw (e, length) (omega (arith, rest))
      ]

  -- A sample has at most the number of inputs that the sampler allows.
  pub length-sample :
      (max_samples : ℕ) (inputs : List GateInput)
      → length (sample fl max_samples inputs) ≤ max_samples
  unfolding sample
  length-sample max_samples inputs = elim (Bool-cases (leb (length inputs) max_samples)) [
    | inl e ↦ rw e (ground arith)
    | inr e ↦ rw e (length-sample_from inputs _ 0 max_samples)
  ]

  evaluate_shadow-hit :
      (h : Hashing F) (s : ShadowEvaluator F) (candidate : TunedConfig F) (input : GateInput)
      (inputs : List GateInput) (engine : ConfigStore F) (r : ShadowResult F)
      → lookup (shadow_key fl h candidate (input ∷ inputs)) s.cache ≡ some r
      → evaluate_shadow fl h s candidate (input ∷ inputs) engine ≡ (cached_comparison fl r, s)
  unfolding evaluate_shadow
  evaluate_shadow-hit h s candidate input inputs engine r e = rw (e, evaluate_shadow) refl

  abbrev result : Comparison F → ShadowResult F
  result c = record { candidate = c.candidate_avg; current = c.current_avg }

  evaluate_shadow-miss :
      (h : Hashing F) (s : ShadowEvaluator F) (candidate : TunedConfig F) (input : GateInput)
      (inputs : List GateInput) (engine : ConfigStore F)
      → lookup (shadow_key fl h candidate (input ∷ inputs)) s.cache ≡ none
      → let fresh = evaluate_fresh fl s candidate (input ∷ inputs) engine in
        evaluate_shadow fl h s candidate (input ∷ inputs) engine ≡ (
          fresh,
          record s {
            cache = insert (shadow_key fl h candidate (input ∷ inputs)) (result fresh) s.cache;
          },
        )
  unfolding evaluate_shadow
  evaluate_shadow-miss h s candidate input inputs engine e = rw (e, evaluate_shadow) refl

  -- A second evaluation of a candidate on the same inputs, at least one, gives the averages of the
  -- first, whatever engine it is given as the current one, leaves the evaluator as it is, and accepts
  -- whenever the candidate's average is above the current one: the A/B gate is not asked.
  pub evaluate_shadow-repeat :
      (h : Hashing F) (s : ShadowEvaluator F) (candidate : TunedConfig F) (input : GateInput)
      (inputs : List GateInput) (engine later : ConfigStore F)
      → let (first, s') = evaluate_shadow fl h s candidate (input ∷ inputs) engine in
        evaluate_shadow fl h s' candidate (input ∷ inputs) later
        ≡ (record first { accepted = fl.lt first.current_avg first.candidate_avg }, s')
  unfolding cached_comparison
  evaluate_shadow-repeat h s candidate input inputs engine later =
      let key = shadow_key fl h candidate (input ∷ inputs) in
      let fresh = evaluate_fresh fl s candidate (input ∷ inputs) engine in
      elim (Option-cases (lookup key s.cache)) [
        | inl e ↦ rw (evaluate_shadow-miss h s candidate input inputs engine e) (
            evaluate_shadow-hit h (record s { cache = insert key (result fresh) s.cache }) candidate
              input inputs later (result fresh) (lookup-insert_self key (result fresh) s.cache))
        | inr (r, e) ↦
            rw (evaluate_shadow-hit h s candidate input inputs engine r e)
              (evaluate_shadow-hit h s candidate input inputs later r e)
      ]
