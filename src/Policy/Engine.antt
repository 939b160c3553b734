-- ===== src/Policy/Engine.antt =====
-- internal/policy/engine.go: the decision on the results of a run.
pub mod Verdict
use Prim.Native.String.{◌++◌ as str_append}
use pads_v.Common.{
  ℕ, String, Bool, true, false, not, ◌&&◌, ◌||◌, Option, none, some, List, [], ◌∷◌, ◌++◌,
  if◌then◌else◌,
}
use pads_v.Common.Float.{Float}
use pads_v.Common.Int.{ℤ, pos, ◌+ℤ◌, ltb_ℤ}
use pads_v.Common.Table.{Table, lookup}
use pads_v.Policy.Config.{TunedConfig}

pub data Status : Type 0 where
  pass warn fail block : Status

-- The texts of the constants.
abbrev pub status_text : Status → String
status_text pass = "PASS"
status_text warn = "WARN"
status_text fail = "FAIL"
status_text block = "BLOCK"

pub data Action : Type 0 where
  allow warned retry blocked escalate : Action

pub record PolicyDecision (F : Type 0) : Type 0 where
  pub status : Status
  pub score : F
  pub actions : List Action
  pub reasoning : List String

pub record GateResult : Type 0 where
  pub reason : String
  pub name : String
  pub passed : Bool
  pub severity : String

pub record CertificationResult : Type 0 where
  pub deterministic : Bool
  pub wal_hash : String
  pub replay_hash : String

pub record ChaosReport : Type 0 where
  pub active : Bool
  pub mode : String
  pub events : List String

-- What the loop over the gates adds up.
pub record Tally : Type 0 where
  pub total_weight : ℤ
  pub earned_weight : ℤ
  pub hard_fail : Bool
  pub reasoning : List String

abbrev pub in_map : {A : Type 0} → Option (Table A) → String → Option A
in_map none key = none
in_map (some m) key = lookup key m

-- A missing key of a map of Booleans reads false.
abbrev pub is_set : Option Bool → Bool
is_set none = false
is_set (some b) = b

abbrev pub is_refuted : Option CertificationResult → Bool
is_refuted none = false
is_refuted (some cert) = not cert.deterministic

abbrev pub no_tally : Tally
no_tally = record { total_weight = pos 0; earned_weight = pos 0; hard_fail = false; reasoning = [] }

module _ (fl : Float) where
  open fl use {F}

  -- DefaultTunedConfig
  abbrev pub default_tuned_config : TunedConfig F
  default_tuned_config = record {
    gate_weights = some (
        ("syntax_gate", pos 30)
        ∷ ("semantic_gate", pos 20)
        ∷ ("execution_gate", pos 25)
        ∷ ("determinism_gate", pos 25)
        ∷ []);
    hard_fail_gates = some (("execution_gate", true) ∷ ("determinism_gate", true) ∷ []);
    chaos_penalties = some (
        ("Silent", fl.of_int (pos 5))
        ∷ ("Hard", fl.of_int (pos 15))
        ∷ ("Full", fl.of_int (pos 30))
        ∷ []);
    threshold_pass = fl.of_int (pos 90);
    threshold_warn = fl.of_int (pos 70);
    threshold_fail = fl.of_int (pos 50);
  }

  unfoldable pub weight_of : TunedConfig F → String → ℤ
  weight_of cfg name = elim (in_map cfg.gate_weights name) [ none ↦ pos 10 | some w ↦ w ]

  unfoldable pub tally_gate : TunedConfig F → Tally → GateResult → Tally
  unfolding weight_of
  tally_gate cfg t g =
      let total = t.total_weight +ℤ weight_of cfg g.name in
      if g.passed
      then record t {
        total_weight = total;
        earned_weight = t.earned_weight +ℤ weight_of cfg g.name;
      }
      else record t {
        total_weight = total;
        hard_fail = t.hard_fail || is_set (in_map cfg.hard_fail_gates g.name);
        reasoning = t.reasoning ++ str_append g.name " failed" ∷ [];
      }

  unfoldable pub tally_all : TunedConfig F → Tally → List GateResult → Tally
  unfolding tally_gate
  tally_all cfg t [] = t
  tally_all cfg t (g ∷ gates) = tally_all cfg (tally_gate cfg t g) gates

  unfoldable pub gate_score : Tally → F
  gate_score t =
      if ltb_ℤ (pos 0) t.total_weight
      then fl.mul (fl.div (fl.of_int t.earned_weight) (fl.of_int t.total_weight))
          (fl.of_int (pos 100))
      else fl.zero

  abbrev sixty : F
  sixty = fl.of_int (pos 60)

  unfoldable pub capped : Bool → F → F
  capped hard_fail score = if hard_fail && fl.lt sixty score then sixty else score

  abbrev floored : F → F
  floored score = if fl.lt score fl.zero then fl.zero else score

  unfoldable pub penalised : TunedConfig F → Option ChaosReport → F → F
  penalised cfg none score = score
  penalised cfg (some chaos) score =
      let penalty : F = elim (in_map cfg.chaos_penalties chaos.mode) [
        | none ↦ fl.zero
        | some p ↦ p
      ] in
      if chaos.active then floored (fl.sub score penalty) else score

  unfoldable pub reasons : Tally → Option ChaosReport → List String
  reasons t chaos =
      t.reasoning
      ++ (if t.hard_fail then "hard-fail gate triggered: score capped at 60" ∷ [] else [])
      ++ elim chaos [
        | none ↦ []
        | some c ↦ if c.active then str_append "chaos penalty applied: mode=" c.mode ∷ [] else []
      ]

  -- The switch on the thresholds.
  unfoldable pub verdict : TunedConfig F → F → Status × List Action
  verdict cfg score =
      if fl.le cfg.threshold_pass score
      then (pass, allow ∷ [])
      else if fl.le cfg.threshold_warn score
      then (warn, warned ∷ [])
      else if fl.le cfg.threshold_fail score
      then (fail, retry ∷ [])
      else (block, blocked ∷ escalate ∷ [])

  unfoldable pub final_score : TunedConfig F → List GateResult → Option ChaosReport → F
  unfolding tally_all gate_score capped penalised
  final_score cfg gates chaos =
      let t = tally_all cfg no_tally gates in
      penalised cfg chaos (capped t.hard_fail (gate_score t))

  -- Evaluate, with the configuration that the store holds.
  unfoldable pub evaluate :
      TunedConfig F
      → List GateResult
      → Option CertificationResult
      → Option ChaosReport
      → PolicyDecision F
  unfolding final_score verdict reasons
  evaluate cfg gates cert chaos =
      let t = tally_all cfg no_tally gates in
      let score = final_score cfg gates chaos in
      let (status, actions) = verdict cfg score in
      if is_refuted cert
      then record {
        status = block;
        score = fl.zero;
        actions = blocked ∷ [];
        reasoning = t.reasoning ++ "certification: non-deterministic run" ∷ [];
      }
      else record { status = status; score = score; actions = actions; reasoning = reasons t chaos }
