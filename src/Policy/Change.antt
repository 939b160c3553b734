-- ===== src/Policy/Change.antt =====
-- internal/policy/change: proposals to change the configuration, their registry, the rules of safety
-- and the validator. A time is what `time.Now` gave.
pub mod Validated
use Prim.Native.String.{◌++◌ as str_append}
use pads_v.Common.{
  ℕ, ◌+◌, ◌≡◌, refl, String, Bool, true, false, not, ◌&&◌, Option, none, some, List, [], ◌∷◌,
  if◌then◌else◌, eqb, length,
}
use pads_v.Common.Float.{Float}
use pads_v.Common.Int.{ℤ, pos, leb_ℤ}
use pads_v.Common.Table.{Table, lookup, insert}
use pads_v.Policy.Config.{TunedConfig}
use pads_v.Policy.ConfigStore.{ConfigStore}
use pads_v.Policy.Shadow.{
  GateInput, Comparison, Hashing, ShadowEvaluator, or_empty, inputs_json, evaluate_shadow,
  new_shadow_evaluator,
}

pub record Proposal (F : Type 0) : Type 0 where
  pub id : String
  pub from_config : TunedConfig F
  pub to_config : TunedConfig F
  pub candidate_score : F
  pub current_score : F
  pub confidence : F
  pub accepted : Bool
  pub reason : String
  pub created_at : ℕ

pub record SafetyController : Type 0 where
  pub max_changes_per_hour : ℤ
  pub emergency_freeze : Bool

abbrev pub new_safety_controller : ℤ → SafetyController
new_safety_controller max = record { max_changes_per_hour = max; emergency_freeze = false }

unfoldable pub allow_change : SafetyController → ℤ → Bool
allow_change s current_changes =
    if s.emergency_freeze
    then false
    else if leb_ℤ s.max_changes_per_hour current_changes
    then false
    else true

abbrev pub freeze : SafetyController → SafetyController
freeze s = record s { emergency_freeze = true }

abbrev pub unfreeze : SafetyController → SafetyController
unfreeze s = record s { emergency_freeze = false }

-- PolicyChangeGate
pub record ChangeGate (F : Type 0) : Type 0 where
  pub min_confidence : F
  pub min_absolute_improve : F

-- PolicyChangeRegistry, and ProposalCache, whose Get and Set are `lookup` and `insert`.
abbrev pub Proposals : Type 0 → Type 0
Proposals F = Table (Proposal F)

pub record Validator (F : Type 0) : Type 0 where
  pub evaluator : ShadowEvaluator F
  pub cache : Proposals F
  pub min_confidence : F
  pub min_gain_ratio : F

abbrev pub values : {A : Type 0} → Table A → List A
values [] = []
values ((key, a) ∷ table) = a ∷ values table

module _ (fl : Float) where
  open fl use {F}

  -- PolicyChangeGate.Evaluate
  unfoldable pub change_gate_evaluate : ChangeGate F → F → F → F → Bool
  change_gate_evaluate g candidate_avg current_avg confidence =
      if fl.eq current_avg fl.zero
      then false
      else if fl.lt confidence g.min_confidence
      then false
      else if fl.lt (fl.sub candidate_avg current_avg) g.min_absolute_improve
      then false
      else true

  -- What Go reads of a missing key.
  abbrev pub zero_config : TunedConfig F
  zero_config = record {
    gate_weights = none;
    chaos_penalties = none;
    threshold_pass = fl.zero;
    threshold_warn = fl.zero;
    threshold_fail = fl.zero;
    hard_fail_gates = none;
  }

  abbrev pub zero_proposal : Proposal F
  zero_proposal = record {
    id = "";
    from_config = zero_config;
    to_config = zero_config;
    candidate_score = fl.zero;
    current_score = fl.zero;
    confidence = fl.zero;
    accepted = false;
    reason = "";
    created_at = 0;
  }

  -- r.proposals[id]
  abbrev pub proposal_at : String → Proposals F → Proposal F
  proposal_at id r = elim (lookup id r) [ none ↦ zero_proposal | some p ↦ p ]

  -- Add; Get is `lookup`
  unfoldable pub add_proposal : Proposal F → Proposals F → Proposals F
  add_proposal p r = insert p.id p r

  -- List
  abbrev pub list_proposals : Proposals F → List (Proposal F)
  list_proposals r = values r

  unfoldable pub mark_accepted : String → Proposals F → Proposals F
  mark_accepted id r = insert id (record (proposal_at id r) { accepted = true }) r

  unfoldable pub mark_rejected : String → String → Proposals F → Proposals F
  mark_rejected id reason r =
      insert id (record (proposal_at id r) { accepted = false; reason = reason }) r

  unfoldable pub new_validator : (TunedConfig F → ConfigStore F) → Validator F
  new_validator factory = record {
    evaluator = new_shadow_evaluator fl factory;
    cache = [];
    min_confidence = fl.ratio (pos 40) (pos 100);
    min_gain_ratio = fl.ratio (pos 10) (pos 100);
  }

  -- Validator.cacheKey
  unfoldable pub proposal_key : Hashing F → TunedConfig F → TunedConfig F → List GateInput → String
  proposal_key h current candidate inputs = h.sha256_hex (
      str_append (or_empty (h.config_json current))
        (str_append (or_empty (h.config_json candidate)) (inputs_json fl h inputs)))

  abbrev one : F
  one = fl.of_int (pos 1)

  unfoldable pub clamp : F → F
  clamp conf = if fl.lt conf fl.zero then fl.zero else if fl.lt one conf then one else conf

  -- Validator.computeConfidence
  unfoldable pub change_confidence : F → F → List GateInput → F
  unfolding clamp
  change_confidence candidate_avg current_avg inputs =
      let gain = fl.sub candidate_avg current_avg in
      let ratio = fl.div gain current_avg in
      let damped = fl.div ratio (fl.log2 (fl.of_int (pos (length inputs + 2)))) in
      if fl.le current_avg fl.zero
      then fl.zero
      else if fl.le gain fl.zero
      then fl.zero
      else clamp (if eqb (length inputs) 0 then ratio else damped)

  unfoldable pub gain_ratio : F → F → F
  gain_ratio candidate_avg current_avg =
      if fl.lt fl.zero current_avg
      then fl.div (fl.sub candidate_avg current_avg) current_avg
      else fl.zero

  abbrev pub accepted_text : String
  accepted_text = "candidate accepted after shadow validation"

  -- The switch on the reason.
  unfoldable pub reason_for : Validator F → Comparison F → F → F → Bool → String
  reason_for v c gain confidence accepted =
      if accepted
      then accepted_text
      else if not c.accepted
      then "candidate rejected by A/B gate"
      else if fl.lt gain v.min_gain_ratio
      then "candidate rejected: gain too small"
      else if fl.lt confidence v.min_confidence
      then "candidate rejected: confidence too low"
      else "candidate rejected"

  unfoldable pub propose :
      ℕ
      → Validator F
      → String
      → TunedConfig F
      → TunedConfig F
      → List GateInput
      → Comparison F
      → Proposal F
  unfolding change_confidence gain_ratio reason_for
  propose now v key current candidate inputs c =
      let confidence = change_confidence c.candidate_avg c.current_avg inputs in
      let gain = gain_ratio c.candidate_avg c.current_avg in
      let accepted =
        c.accepted && (fl.le v.min_gain_ratio gain && fl.le v.min_confidence confidence) in
      record {
        id = key;
        from_config = current;
        to_config = candidate;
        candidate_score = c.candidate_avg;
        current_score = c.current_avg;
        confidence = confidence;
        accepted = accepted;
        reason = reason_for v c gain confidence accepted;
        created_at = now;
      }

  -- Validate, on a validator that is set up.
  unfoldable pub validate :
      Hashing F
      → ℕ
      → Validator F
      → TunedConfig F
      → TunedConfig F
      → List GateInput
      → ConfigStore F
      → Proposal F × Validator F
  unfolding propose proposal_key
  validate h now v current candidate inputs engine =
      let key = proposal_key h current candidate inputs in
      let (c, evaluator) = evaluate_shadow fl h v.evaluator candidate inputs engine in
      let p = propose now v key current candidate inputs c in
      elim (lookup key v.cache) [
        | some cached ↦ (cached, v)
        | none ↦ (p, record v { evaluator = evaluator; cache = insert key p v.cache })
      ]

  -- ... and on any: one that is not set up is an error, here `none`.
  unfoldable pub validate_any :
      Hashing F
      → ℕ
      → Option (Validator F)
      → TunedConfig F
      → TunedConfig F
      → List GateInput
      → ConfigStore F
      → Option (Proposal F × Validator F)
  unfolding validate
  validate_any h now none current candidate inputs engine = none
  validate_any h now (some v) current candidate inputs engine =
      some (validate h now v current candidate inputs engine)
