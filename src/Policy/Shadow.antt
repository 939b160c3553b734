-- ===== src/Policy/Shadow.antt =====
-- internal/policy/shadow: a candidate configuration beside the current one on recent inputs, with a
-- cache of results. ShadowEvaluate of internal/policy/config_store.go is the version without one.
pub mod Repeat
use Prim.Native.String.{◌++◌ as str_append}
use pads_v.Common.{
  ℕ, zero, suc, ◌+◌, ◌-◌, ◌*◌, ◌≤◌, ◌≡◌, refl, String, Bool, true, false, ◌&&◌, Option, none, some,
  List, [], ◌∷◌, ◌++◌, if◌then◌else◌, leb, eqb, length, get_elem?, arith, Bool-cases, inl, inr,
  Option-cases,
}
use pads_v.Common.Float.{Float}
use pads_v.Common.Int.{ℤ, pos, negsuc, pos_part}
use pads_v.Common.Table.{Table, lookup, insert}
use pads_v.Policy.Config.{TunedConfig}
use pads_v.Policy.ConfigStore.{ConfigStore, new_config_store}
use pads_v.Policy.Engine.{
  GateResult, CertificationResult, ChaosReport, evaluate, default_tuned_config,
}

pub record GateInput : Type 0 where
  pub gates : List GateResult
  pub cert : Option CertificationResult
  pub chaos : Option ChaosReport

pub record ShadowResult (F : Type 0) : Type 0 where
  pub candidate : F
  pub current : F

-- NewShadowCache, Get and Set are the empty table, `lookup` and `insert`.
abbrev pub ShadowCache : Type 0 → Type 0
ShadowCache F = Table (ShadowResult F)

pub record AbGate (F : Type 0) : Type 0 where
  pub min_delta : F
  pub min_gain : F

-- encoding/json, which may refuse a value, and the hexadecimal SHA-256 of a text.
pub record Hashing (F : Type 0) : Type 0 where
  pub config_json : TunedConfig F → Option String
  pub input_json : GateInput → Option String
  pub sha256_hex : String → String

-- What `h.Write(b)` adds: nothing, where `json.Marshal` failed, whose error is dropped.
abbrev pub or_empty : Option String → String
or_empty none = ""
or_empty (some text) = text

-- What an evaluation returns.
pub record Comparison (F : Type 0) : Type 0 where
  pub candidate_avg : F
  pub current_avg : F
  pub accepted : Bool

pub record ShadowEvaluator (F : Type 0) : Type 0 where
  -- EngineFactory: the store of the engine that it makes
  pub factory : TunedConfig F → ConfigStore F
  pub cache : ShadowCache F
  pub max_samples : ℕ
  pub ab_gate : AbGate F

module _ (fl : Float) where
  open fl use {F}

  -- NewEngine, as the store that the engine reads
  unfoldable pub new_engine : Option (ConfigStore F) → ConfigStore F
  new_engine none = new_config_store fl (default_tuned_config fl)
  new_engine (some store) = store

  -- The score of `engine.Evaluate(in.Gates, in.Cert, in.Chaos)`
  unfoldable pub score_of : ConfigStore F → GateInput → F
  score_of engine input = (evaluate fl engine.config input.gates input.cert input.chaos).score

  -- The loop that sums the scores of one engine.
  unfoldable pub sum_scores : ConfigStore F → F → List GateInput → F
  unfolding score_of
  sum_scores engine sum [] = sum
  sum_scores engine sum (input ∷ inputs) =
      sum_scores engine (fl.add sum (score_of engine input)) inputs

  abbrev pub average_score : ConfigStore F → List GateInput → F
  average_score engine inputs =
      fl.div (sum_scores engine fl.zero inputs) (fl.of_int (pos (length inputs)))

  abbrev pub no_comparison : Comparison F
  no_comparison = record { candidate_avg = fl.zero; current_avg = fl.zero; accepted = false }

  -- ConfigStore.ShadowEvaluate
  unfoldable pub shadow_evaluate : TunedConfig F → List GateInput → ConfigStore F → Comparison F
  unfolding sum_scores
  shadow_evaluate candidate [] engine = no_comparison
  shadow_evaluate candidate (input ∷ inputs) engine =
      let candidate_engine = new_engine (some (new_config_store fl candidate)) in
      let candidate_avg = average_score candidate_engine (input ∷ inputs) in
      let current_avg = average_score engine (input ∷ inputs) in
      let bar = fl.mul current_avg (fl.add (fl.of_int (pos 1)) (fl.ratio (pos 1) (pos 100))) in
      record {
        candidate_avg = candidate_avg;
        current_avg = current_avg;
        accepted = fl.lt bar candidate_avg;
      }

  -- ABGate.Accept
  unfoldable pub ab_accept : AbGate F → F → F → Bool
  ab_accept g candidate_avg current_avg =
      let delta = fl.sub candidate_avg current_avg in
      let gain = fl.div delta current_avg in
      if fl.eq current_avg fl.zero then false else fl.lt g.min_delta delta && fl.lt g.min_gain gain

  -- int(float64(i) * step); an index is not negative
  abbrev pub sample_index : F → ℕ → ℕ
  sample_index step i = pos_part (fl.to_int (fl.mul (fl.of_int (pos i)) step))

  -- The loop of Sample, with as many rounds as it may take: each adds an input or ends it.
  unfoldable pub sample_from : List GateInput → F → ℕ → ℕ → List GateInput
  sample_from inputs step i zero = []
  sample_from inputs step i (suc rounds) =
      let rest = sample_from inputs step (suc i) rounds in
      elim (get_elem? inputs (sample_index step i)) [ none ↦ [] | some input ↦ input ∷ rest ]

  unfoldable pub sample : ℕ → List GateInput → List GateInput
  unfolding sample_from
  sample max_samples inputs =
      let step = fl.div (fl.of_int (pos (length inputs))) (fl.of_int (pos max_samples)) in
      if leb (length inputs) max_samples then inputs else sample_from inputs step 0 max_samples

  -- New
  unfoldable pub new_shadow_evaluator : (TunedConfig F → ConfigStore F) → ShadowEvaluator F
  new_shadow_evaluator factory = record {
    factory = factory;
    cache = [];
    max_samples = 10;
    ab_gate = record {
      min_delta = fl.ratio (pos 1) (pos 2);
      min_gain = fl.ratio (pos 5) (pos 1000);
    };
  }

  -- The texts of the inputs, one after the other.
  abbrev pub inputs_json : Hashing F → List GateInput → String
  inputs_json h [] = ""
  inputs_json h (input ∷ inputs) = str_append (or_empty (h.input_json input)) (inputs_json h inputs)

  unfoldable pub shadow_key : Hashing F → TunedConfig F → List GateInput → String
  shadow_key h cfg inputs =
      h.sha256_hex (str_append (or_empty (h.config_json cfg)) (inputs_json h inputs))

  -- Evaluate where the key is not in the cache.
  unfoldable pub evaluate_fresh :
      ShadowEvaluator F → TunedConfig F → List GateInput → ConfigStore F → Comparison F
  unfolding sum_scores sample ab_accept
  evaluate_fresh s candidate inputs engine =
      let sampled = sample s.max_samples inputs in
      let candidate_avg = average_score (s.factory candidate) sampled in
      let current_avg = average_score engine sampled in
      record {
        candidate_avg = candidate_avg;
        current_avg = current_avg;
        accepted = ab_accept s.ab_gate candidate_avg current_avg;
      }

  -- ... and where it is: the verdict is no longer that of the gate.
  unfoldable pub cached_comparison : ShadowResult F → Comparison F
  cached_comparison r = record {
    candidate_avg = r.candidate;
    current_avg = r.current;
    accepted = fl.lt r.current r.candidate;
  }

  -- Evaluate. The argument `current` of the source is not used by it.
  unfoldable pub evaluate_shadow :
      Hashing F
      → ShadowEvaluator F
      → TunedConfig F
      → List GateInput
      → ConfigStore F
      → Comparison F × ShadowEvaluator F
  unfolding evaluate_fresh cached_comparison shadow_key
  evaluate_shadow h s candidate [] engine = (no_comparison, s)
  evaluate_shadow h s candidate (input ∷ inputs) engine =
      let key = shadow_key h candidate (input ∷ inputs) in
      let fresh = evaluate_fresh s candidate (input ∷ inputs) engine in
      let result : ShadowResult F = record {
        candidate = fresh.candidate_avg;
        current = fresh.current_avg;
      } in
      elim (lookup key s.cache) [
        | some cached ↦ (cached_comparison cached, s)
        | none ↦ (fresh, record s { cache = insert key result s.cache })
      ]
