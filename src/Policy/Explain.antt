-- ===== src/Policy/Explain.antt =====
-- internal/policy/trace.go and explain.go: the audit trace of a decision, its replay, and the
-- explanation drawn from it. `Format` is fmt's notation of numbers and of lists of texts.
pub mod Sums
pub mod Agreement
use Prim.Native.String.{◌++◌ as str_append, compare}
use text.Mathlib.Text.{is_lt}
use pads_v.Common.{
  ℕ, suc, ◌+◌, String, Bool, true, false, not, ◌&&◌, ◌||◌, Option, none, some, List, [], ◌∷◌, ◌++◌,
  if◌then◌else◌, ◌==◌, eqb, length,
}
use pads_v.Common.Float.{Float}
use pads_v.Common.Int.{ℤ, pos, negsuc, ◌+ℤ◌, ltb_ℤ, eqb_ℤ}
use pads_v.Common.Table.{Table, lookup}
use pads_v.Policy.Engine.{
  Status, pass, block, GateResult, CertificationResult, ChaosReport, PolicyDecision, is_set,
  is_refuted, status_text,
}

pub record TraceStep (F : Type 0) : Type 0 where
  pub stage : String
  pub source : String
  pub impact : F
  pub score_before : F
  pub score_after : F
  pub reason : String
  pub failed_gates : List String

pub record PolicyTrace (F : Type 0) : Type 0 where
  pub decision_id : String
  pub steps : List (TraceStep F)
  pub final_score : F
  pub final_status : Status

pub record PolicyExplanation (F : Type 0) : Type 0 where
  pub summary : String
  pub key_reasons : List String
  pub risk_signals : List String
  pub confidence : F

pub record Format : Type 0 where
  pub decimal : ℕ → String
  pub list : List String → String

-- What the loop over the sorted gates adds up.
pub record GateSums : Type 0 where
  pub total_weight : ℤ
  pub earned_weight : ℤ
  pub hard_fail : Bool
  pub failed : List String

-- The tables of BuildTrace, apart from those of the engine.
abbrev pub trace_weights : Table ℤ
trace_weights =
    ("syntax_gate", pos 30)
    ∷ ("semantic_gate", pos 20)
    ∷ ("execution_gate", pos 25)
    ∷ ("determinism_gate", pos 25)
    ∷ []

abbrev pub trace_hard_fails : Table Bool
trace_hard_fails = ("execution_gate", true) ∷ ("determinism_gate", true) ∷ []

abbrev or_zero : Option ℤ → ℤ
or_zero none = pos 0
or_zero (some w) = w

unfoldable pub trace_weight : String → ℤ
trace_weight name =
    let w = or_zero (lookup name trace_weights) in if eqb_ℤ w (pos 0) then pos 10 else w

-- sort.Slice by name
unfoldable pub insert_gate : GateResult → List GateResult → List GateResult
insert_gate g [] = g ∷ []
insert_gate g (h ∷ gates) =
    if is_lt (compare h.name g.name) then h ∷ insert_gate g gates else g ∷ h ∷ gates

unfoldable pub sort_gates : List GateResult → List GateResult
unfolding insert_gate
sort_gates [] = []
sort_gates (g ∷ gates) = insert_gate g (sort_gates gates)

abbrev pub no_sums : GateSums
no_sums = record { total_weight = pos 0; earned_weight = pos 0; hard_fail = false; failed = [] }

unfoldable pub sum_gate : GateSums → GateResult → GateSums
unfolding trace_weight
sum_gate s g =
    let total = s.total_weight +ℤ trace_weight g.name in
    if g.passed
    then record s { total_weight = total; earned_weight = s.earned_weight +ℤ trace_weight g.name }
    else record s {
      total_weight = total;
      failed = s.failed ++ g.name ∷ [];
      hard_fail = s.hard_fail || is_set (lookup g.name trace_hard_fails);
    }

unfoldable pub sum_gates : GateSums → List GateResult → GateSums
unfolding sum_gate
sum_gates s [] = s
sum_gates s (g ∷ gates) = sum_gates (sum_gate s g) gates

module _ (fl : Float) (format : Format) where
  open fl use {F}

  -- generateTraceID, with its counter
  unfoldable pub generate_trace_id : ℕ → String × ℕ
  generate_trace_id counter = (str_append "trace-" (format.decimal (suc counter)), suc counter)

  abbrev hundred : F
  hundred = fl.of_int (pos 100)

  abbrev sixty : F
  sixty = fl.of_int (pos 60)

  unfoldable pub trace_gate_score : GateSums → F
  trace_gate_score s =
      if ltb_ℤ (pos 0) s.total_weight
      then fl.mul (fl.div (fl.of_int s.earned_weight) (fl.of_int s.total_weight)) hundred
      else fl.zero

  abbrev pub step : String → String → F → F → String → TraceStep F
  step stage source before after reason = record {
    stage = stage;
    source = source;
    impact = fl.sub after before;
    score_before = before;
    score_after = after;
    reason = reason;
    failed_gates = [];
  }

  unfoldable pub gates_step : GateSums → TraceStep F
  unfolding trace_gate_score
  gates_step s =
      let reason = str_append "gates evaluated (failed: " (str_append (format.list s.failed) ")") in
      record (step "GATES" "all_gates" hundred (trace_gate_score s) reason) {
        failed_gates = s.failed;
      }

  unfoldable pub certification_step : F → TraceStep F
  certification_step score =
      step "CERTIFICATION" "determinism" score fl.zero "non-deterministic execution override"

  -- A later step of the trace, if it is taken, and the score after it.
  unfoldable pub cap_step : Bool → F → List (TraceStep F) × F
  cap_step hard_fail score =
      if hard_fail && fl.lt sixty score
      then (
        step "HARD_FAIL_CAP" "hard_fail_gates" score sixty "score capped due to hard-fail gate"
            ∷ [],
        sixty,
      )
      else ([], score)

  abbrev pub trace_penalties : Table F
  trace_penalties =
      ("Silent", fl.of_int (pos 5))
      ∷ ("Hard", fl.of_int (pos 15))
      ∷ ("Full", fl.of_int (pos 30))
      ∷ []

  abbrev pub or_no_penalty : Option F → F
  or_no_penalty none = fl.zero
  or_no_penalty (some p) = p

  abbrev pub at_least_zero : F → F
  at_least_zero score = if fl.lt score fl.zero then fl.zero else score

  unfoldable pub chaos_step : Option ChaosReport → F → List (TraceStep F) × F
  chaos_step none score = ([], score)
  chaos_step (some chaos) score =
      let penalty = or_no_penalty (lookup chaos.mode trace_penalties) in
      let after = at_least_zero (fl.sub score penalty) in
      let reason = str_append "chaos penalty applied: mode=" chaos.mode in
      if chaos.active then (step "CHAOS" chaos.mode score after reason ∷ [], after) else ([], score)

  unfoldable pub final_step : F → F → TraceStep F
  final_step score decided = record {
    stage = "FINAL";
    source = "policy_engine";
    impact = fl.zero;
    score_before = score;
    score_after = decided;
    reason = "final decision alignment";
    failed_gates = [];
  }

  unfoldable pub trace_steps :
      List GateResult
      → Option CertificationResult
      → Option ChaosReport
      → PolicyDecision F
      → List (TraceStep F)
  unfolding sum_gates sort_gates trace_gate_score gates_step certification_step cap_step chaos_step
      final_step
  trace_steps gates cert chaos decision =
      let sums = sum_gates no_sums (sort_gates gates) in
      let score = trace_gate_score sums in
      let (caps, capped) = cap_step sums.hard_fail score in
      let (penalties, penalised) = chaos_step chaos capped in
      if is_refuted cert
      then gates_step sums ∷ certification_step score ∷ []
      else gates_step sums ∷ (caps ++ penalties ++ final_step penalised decision.score ∷ [])

  -- BuildTrace, with the counter of the identifiers.
  unfoldable pub build_trace :
      ℕ
      → List GateResult
      → Option CertificationResult
      → Option ChaosReport
      → PolicyDecision F
      → PolicyTrace F × ℕ
  unfolding trace_steps generate_trace_id
  build_trace counter gates cert chaos decision =
      let (id, counter') = generate_trace_id counter in
      (
        record {
          decision_id = id;
          steps = trace_steps gates cert chaos decision;
          final_score = decision.score;
          final_status = decision.status;
        },
        counter',
      )

  -- The loop of ReplayEngine.Replay: the score that is reached, or none where a step does not add up.
  unfoldable pub replay_steps : F → List (TraceStep F) → Option F
  replay_steps score [] = some score
  replay_steps score (s ∷ steps) =
      let rest = replay_steps s.score_after steps in
      if s.stage == "FINAL"
      then some score
      else if fl.eq s.score_after (fl.add score s.impact)
      then rest
      else none

  abbrev pub is_score : Option F → F → Bool
  is_score none final = false
  is_score (some reached) final = fl.eq reached final

  unfoldable pub replay_from : List (TraceStep F) → F → Bool
  unfolding replay_steps
  replay_from [] final = false
  replay_from (s ∷ steps) final = is_score (replay_steps s.score_before (s ∷ steps)) final

  unfoldable pub replay : PolicyTrace F → Bool
  unfolding replay_from
  replay trace = replay_from trace.steps trace.final_score

  -- The loop of BuildExplanation: reasons, then risks.
  unfoldable pub signals : List (TraceStep F) → List String × List String
  signals [] = ([], [])
  signals (s ∷ steps) =
      let (reasons, risks) = signals steps in
      (
        (if (s.stage == "GATES") && fl.lt s.impact fl.zero then s.reason ∷ [] else []) ++ reasons,
        (if s.stage == "CERTIFICATION" then "determinism violation detected" ∷ [] else [])
            ++ (if s.stage == "CHAOS"
                then str_append "system instability detected: " s.source ∷ []
                else [])
            ++ risks,
      )

  unfoldable pub compute_confidence : F → List String → F
  compute_confidence score risks =
      let base = fl.div score hundred in
      let lowered =
        fl.sub base (fl.mul (fl.ratio (pos 1) (pos 10)) (fl.of_int (pos (length risks)))) in
      at_least_zero (if eqb (length risks) 0 then base else lowered)

  unfoldable pub summarize : Status → String
  summarize Status.pass = "CI run passed all checks"
  summarize Status.block = "CI run blocked due to critical failures"
  summarize other = str_append "CI run completed with status: " (status_text other)

  unfoldable pub build_explanation : PolicyTrace F → PolicyExplanation F
  unfolding signals compute_confidence summarize
  build_explanation trace =
      let (reasons, risks) = signals trace.steps in
      record {
        summary = summarize trace.final_status;
        key_reasons = reasons;
        risk_signals = risks;
        confidence = compute_confidence trace.final_score risks;
      }
