-- ===== src/Ci/Causal.antt =====
-- internal/ci/causal/causal_event.go and causal_runtime.go: the events of a run, each with an
-- identifier and that of its parent. `show`, which writes a number in decimal, is fmt's.
pub mod Divergence
pub mod Patch
pub mod Chain
mod Samples
use Prim.Native.String.{◌++◌}
use pads_v.Common.{
  ℕ, zero, suc, String, Bool, true, false, ◌||◌, Option, none, some, List, [], ◌∷◌, if◌then◌else◌,
  ◌==◌,
}
use pads_v.Dag.Nodes.{CanonicalEvent}

pub record CausalEvent : Type 0 where
  pub seq : ℕ
  pub type : String
  pub job_id : String
  pub step_id : String
  pub status : String
  pub payload : String
  pub causal_id : String
  pub parent_id : String
  pub phase_id : String

unfoldable pub compute_causal_id : (ℕ → String) → String → String → String → ℕ → String
compute_causal_id show job_id step_id phase seq =
    job_id ++ ("|" ++ (step_id ++ ("|" ++ (phase ++ ("|" ++ show seq)))))

unfoldable pub get_phase : String → String
get_phase type =
    if type == "CI_JOB_STARTED" || type == "CI_JOB_FINISHED"
    then "JOB_LIFECYCLE"
    else if type == "CI_STEP_STARTED" || type == "CI_STEP_FINISHED"
    then "STEP_EXECUTION"
    else if type == "CI_CACHE_HIT" || type == "CI_CACHE_MISS"
    then "CACHE_RESOLUTION"
    else if type == "CI_ARTIFACT"
    then "ARTIFACT_STORAGE"
    else "UNKNOWN"

module _ (show : ℕ → String) where
  abbrev pub causal_id_of : ℕ → CanonicalEvent → String
  causal_id_of i e = compute_causal_id show e.job_id e.step_id (get_phase e.type) i

  abbrev pub instrument_event : ℕ → String → CanonicalEvent → CausalEvent
  instrument_event i parent_id e = record {
    seq = i;
    type = e.type;
    job_id = e.job_id;
    step_id = e.step_id;
    status = e.status;
    payload = e.payload;
    causal_id = causal_id_of i e;
    parent_id = parent_id;
    phase_id = get_phase e.type;
  }

  -- The loop at index `i`: `previous` is the job of `events[i-1]`, if there is one, and
  -- `last_causal_id` the identifier given to it.
  unfoldable pub instrument_from :
      ℕ → Option String → String → List CanonicalEvent → List CausalEvent
  instrument_from i previous last_causal_id [] = []
  instrument_from i previous last_causal_id (e ∷ events) =
      let parent_id : String = elim previous [
        | none ↦ ""
        | some job_id ↦ if job_id == e.job_id then last_causal_id else ""
      ] in
      instrument_event i parent_id e
      ∷ instrument_from (suc i) (some e.job_id) (causal_id_of i e) events

  unfoldable pub instrument_events : List CanonicalEvent → List CausalEvent
  unfolding instrument_from
  instrument_events events = instrument_from 0 none "" events
