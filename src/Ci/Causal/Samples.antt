-- ===== src/Ci/Causal/Samples.antt =====
-- Two short streams of events that part at the second.
use pads_v.Common.{ℕ, ◌≡◌, ◌↔◌, refl, String, Option, none, some, List, [], ◌∷◌, map}
use pads_v.Dag.Nodes.{CanonicalEvent}
use pads_v.Ci.Jobs.{Jobs}
use pads_v.Ci.Causal.{CausalEvent, compute_causal_id, get_phase, instrument_event}
use pads_v.Ci.Causal.Divergence.{DivergenceNode, no_diff, locate_divergence, locate_from, diverge}
use pads_v.Ci.Causal.Divergence.First.{
  compared, event_at, PartsAt, locate_divergence-none, locate_divergence_first,
}
use pads_v.Ci.Causal.Patch.Repair.{Repairs, locate_divergence-Repairs}

abbrev event : String → String → CanonicalEvent
event type status = record {
  node_id = "n";
  type = type;
  job_id = "build";
  step_id = "compile";
  status = status;
  payload = "";
  time = 0;
}

abbrev short : ℕ → String
short n = "0"

abbrev oracle : List CausalEvent
oracle =
    instrument_event short 0 "" (event "CI_STEP_STARTED" "RUNNING")
    ∷ instrument_event short 1 "" (event "CI_STEP_FINISHED" "SUCCESS")
    ∷ []

abbrev replay : List CausalEvent
replay =
    instrument_event short 0 "" (event "CI_STEP_STARTED" "RUNNING")
    ∷ instrument_event short 1 "" (event "CI_STEP_FINISHED" "FAILED")
    ∷ []

locate_divergence-none_example :
    locate_divergence oracle replay ≡ none ↔ map compared oracle ≡ map compared replay
locate_divergence-none_example = locate_divergence-none oracle replay

abbrev node_or : Option DivergenceNode → DivergenceNode
node_or (some node) = node
node_or none = record {
  index = 0;
  oracle_event = event_at [] 0;
  replay_event = event_at [] 0;
  job_id = "";
  step_id = "";
  type = no_diff;
  detail = "";
}

abbrev found : DivergenceNode
found = node_or (locate_divergence oracle replay)

found_there : locate_divergence oracle replay ≡ some found
unfolding locate_divergence locate_from diverge compute_causal_id get_phase
found_there = refl

locate_divergence_first_example :
    PartsAt found.index oracle replay
    × (found.oracle_event ≡ event_at oracle found.index)
    × (found.replay_event ≡ event_at replay found.index)
locate_divergence_first_example = locate_divergence_first oracle replay found found_there

abbrev no_jobs : Jobs
no_jobs = []

locate_divergence-Repairs_example : Repairs no_jobs (some found)
locate_divergence-Repairs_example =
    locate_divergence-Repairs no_jobs oracle replay found found_there
