-- ===== src/Ci/Causal/Divergence.antt =====
-- internal/ci/causal/divergence_locator.go and causal_diff.go: where two streams of events part.
pub mod First
use Prim.Native.String.{◌++◌}
use pads_v.Common.{
  ℕ, zero, suc, String, Bool, true, false, not, ◌&&◌, ◌||◌, Option, none, some, List, [], ◌∷◌,
  if◌then◌else◌, ◌==◌,
}
use pads_v.Ci.Causal.{CausalEvent}

pub data DiffType : Type 0 where
  no_diff cache_hit ordering artifact missing extra : DiffType

-- The zero value of a CausalEvent.
abbrev pub no_event : CausalEvent
no_event = record {
  seq = 0;
  type = "";
  job_id = "";
  step_id = "";
  status = "";
  payload = "";
  causal_id = "";
  parent_id = "";
  phase_id = "";
}

pub record DivergenceNode : Type 0 where
  pub index : ℕ
  pub oracle_event : CausalEvent
  pub replay_event : CausalEvent
  pub job_id : String
  pub step_id : String
  pub type : DiffType
  pub detail : String

pub record CausalDiff : Type 0 where
  pub type : DiffType
  pub index : ℕ
  pub oracle : CausalEvent
  pub replay : CausalEvent
  pub detail : String

abbrev pub is_cache : String → Bool
is_cache type = type == "CI_CACHE_HIT" || type == "CI_CACHE_MISS"

-- The body of LocateDivergence's loop: the kind and the detail of what it returns.
unfoldable pub diverge : CausalEvent → CausalEvent → Option (DiffType × String)
diverge o r =
    if is_cache o.type && (not (o.type == r.type) || not (o.status == r.status))
    then some (cache_hit, "cache divergence: " ++ (o.status ++ (" vs " ++ r.status)))
    else if not (o.type == r.type)
    then some (ordering, "type mismatch: " ++ (o.type ++ (" vs " ++ r.type)))
    else if not (o.status == r.status)
    then some (ordering, "status mismatch: " ++ (o.status ++ (" vs " ++ r.status)))
    else if not (o.payload == r.payload)
    then some (artifact, "payload mismatch at step " ++ o.step_id)
    else if not (o.causal_id == r.causal_id) || not (o.parent_id == r.parent_id)
    then some (ordering, "causal chain integrity violation")
    else none

abbrev pub located_at :
    ℕ
    → CausalEvent
    → CausalEvent
    → Option (DiffType × String)
    → Option DivergenceNode
    → Option DivergenceNode
located_at i o r none later = later
located_at i o r (some (type, detail)) later = some (record {
  index = i;
  oracle_event = o;
  replay_event = r;
  job_id = o.job_id;
  step_id = o.step_id;
  type = type;
  detail = detail;
})

-- LocateDivergence from index `i` on. No job or step is set where one stream has ended.
unfoldable pub locate_from : ℕ → List CausalEvent → List CausalEvent → Option DivergenceNode
locate_from i [] [] = none
locate_from i (o ∷ os) [] = some (record {
  index = i;
  oracle_event = o;
  replay_event = no_event;
  job_id = "";
  step_id = "";
  type = missing;
  detail = "missing event: " ++ o.type;
})
locate_from i [] (r ∷ rs) = some (record {
  index = i;
  oracle_event = no_event;
  replay_event = r;
  job_id = "";
  step_id = "";
  type = extra;
  detail = "extra event: " ++ r.type;
})
locate_from i (o ∷ os) (r ∷ rs) =
    let later = locate_from (suc i) os rs in located_at i o r (diverge o r) later

unfoldable pub locate_divergence : List CausalEvent → List CausalEvent → Option DivergenceNode
unfolding locate_from
locate_divergence oracle replay = locate_from 0 oracle replay

-- The body of FindFirstDivergentNode's loop: the payloads of artifacts only.
unfoldable pub differ : CausalEvent → CausalEvent → Option (DiffType × String)
differ o r =
    if not (o.type == r.type)
    then some (ordering, "type mismatch: " ++ (o.type ++ (" vs " ++ r.type)))
    else if not (o.status == r.status)
    then (if is_cache o.type
        then some (cache_hit, "cache status mismatch: " ++ (o.status ++ (" vs " ++ r.status)))
        else some (ordering, "status mismatch: " ++ (o.status ++ (" vs " ++ r.status))))
    else if not (o.payload == r.payload) && o.type == "CI_ARTIFACT"
    then some (artifact, "artifact payload mismatch at " ++ o.step_id)
    else none

abbrev pub found_at :
    ℕ → CausalEvent → CausalEvent → Option (DiffType × String) → CausalDiff → CausalDiff
found_at i o r none later = later
found_at i o r (some (type, detail)) later = record {
  type = type;
  index = i;
  oracle = o;
  replay = r;
  detail = detail;
}

unfoldable pub find_from : ℕ → List CausalEvent → List CausalEvent → CausalDiff
find_from i [] [] = record {
  type = no_diff;
  index = 0;
  oracle = no_event;
  replay = no_event;
  detail = "";
}
find_from i (o ∷ os) [] = record {
  type = missing;
  index = i;
  oracle = o;
  replay = no_event;
  detail = "missing event in replay: " ++ o.type;
}
find_from i [] (r ∷ rs) = record {
  type = extra;
  index = i;
  oracle = no_event;
  replay = r;
  detail = "extra event in replay: " ++ r.type;
}
find_from i (o ∷ os) (r ∷ rs) =
    let later = find_from (suc i) os rs in found_at i o r (differ o r) later

-- Its error is always nil.
unfoldable pub find_first_divergent_node : List CausalEvent → List CausalEvent → CausalDiff
unfolding find_from
find_first_divergent_node oracle replay = find_from 0 oracle replay
