-- ===== src/Ci/Causal/Patch.antt =====
-- internal/ci/causal/patch_engine.go and root_cause.go: what is done about a divergence.
pub mod Repair
use Prim.Native.String.{◌++◌}
use pads_v.Common.{
  ℕ, String, Bool, true, false, Option, none, some, List, [], ◌∷◌, if◌then◌else◌, ◌==◌, Result, ok,
  err,
}
use pads_v.Common.Table.{lookup}
use pads_v.Ci.Jobs.{Step, Job, Jobs}
use pads_v.Ci.Causal.Divergence.{
  DiffType, no_diff, cache_hit, ordering, artifact, missing, extra, DivergenceNode, CausalDiff,
}

pub record PatchAction : Type 0 where
  pub kind : String
  pub job_id : String
  pub step_id : String
  pub detail : String

pub data PatchError : Type 0 where
  unknown_divergence : DiffType → PatchError
  step_not_found : String → String → PatchError
  unknown_action : String → PatchError

-- "<what> for <job>/<step>: <detail>"
abbrev pub describe : String → DivergenceNode → String
describe what node =
    what ++ (" for " ++ (node.job_id ++ ("/" ++ (node.step_id ++ (": " ++ node.detail)))))

abbrev pub action_of : String → String → String → String → PatchAction
action_of kind job_id step_id detail = record {
  kind = kind;
  job_id = job_id;
  step_id = step_id;
  detail = detail;
}

-- The action for a node of a kind, nil for no kind of divergence.
abbrev pub action_for : DiffType → DivergenceNode → Option PatchAction
action_for cache_hit node =
    some (action_of "invalidate_cache" node.job_id node.step_id (describe "cache divergence" node))
action_for artifact node =
    some (action_of "force_recompute" node.job_id node.step_id (describe "artifact mismatch" node))
action_for ordering node =
    some (action_of "reset_step" node.job_id node.step_id (describe "ordering mismatch" node))
action_for missing node = some (
    action_of "force_recompute" node.oracle_event.job_id node.oracle_event.step_id
      ("missing event in replay: " ++ node.detail))
action_for extra node = some (
    action_of "reset_step" node.replay_event.job_id node.replay_event.step_id
      ("extra event in replay: " ++ node.detail))
action_for no_diff node = none

-- A nil node has no action.
unfoldable pub generate_patch : Option DivergenceNode → Result PatchError (Option PatchAction)
generate_patch none = ok none
generate_patch (some node) = elim (action_for node.type node) [
  | some action ↦ ok (some action)
  | none ↦ err (unknown_divergence node.type)
]

unfoldable pub has_step : String → List Step → Bool
has_step id [] = false
has_step id (s ∷ steps) = if s.id == id then true else has_step id steps

-- ApplyPatch leaves the jobs as they are: it only looks for the step.
unfoldable pub apply_patch : Jobs → Option PatchAction → Result PatchError (Unit {0})
unfolding has_step
apply_patch jobs none = ok tt
apply_patch jobs (some action) =
    if action.kind == "invalidate_cache"
    then ok tt
    else if action.kind == "force_recompute"
    then elim (lookup action.job_id jobs) [
      | none ↦ err (step_not_found action.step_id action.job_id)
      | some job ↦
          if has_step action.step_id job.steps
          then ok tt
          else err (step_not_found action.step_id action.job_id)
    ]
    else if action.kind == "reset_step"
    then ok tt
    else err (unknown_action action.kind)

pub record RootCause : Type 0 where
  pub step_id : String
  pub reason : String
  pub severity : ℕ

unfoldable pub analyze_cause : CausalDiff → RootCause
analyze_cause diff = elim diff.type [
  | cache_hit ↦ record {
    step_id = diff.oracle.step_id;
    reason = "cache hit/miss mismatch: deterministic input drift or cache state divergence";
    severity = 2;
  }
  | ordering ↦ record {
    step_id = diff.oracle.step_id;
    reason =
        "event ordering mismatch: DAG scheduling instability or non-deterministic execution order";
    severity = 3;
  }
  | artifact ↦ record {
    step_id = diff.oracle.step_id;
    reason = "artifact payload mismatch: filesystem divergence or non-canonical artifact path";
    severity = 1;
  }
  | missing ↦ record {
    step_id = diff.oracle.step_id;
    reason = "missing event in replay: execution path truncated or cache hit unexpectedly";
    severity = 2;
  }
  | extra ↦ record {
    step_id = diff.replay.step_id;
    reason =
        "extra event in replay: non-deterministic execution branch or cache miss incorrectly triggered";
    severity = 2;
  }
  | no_diff ↦ record { step_id = ""; reason = "no divergence detected"; severity = 0 }
]
