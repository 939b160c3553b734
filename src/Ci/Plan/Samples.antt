-- ===== src/Ci/Plan/Samples.antt =====
-- The plan of one job with one step, and its run.
use pads_v.Common.{◌≤◌, ◌≡◌, refl, String, List, [], ◌∷◌, Result, ok, err, false}
use pads_v.Common.Count.{count}
use pads_v.Common.Sorting.{sort}
use pads_v.Common.Table.{keys, lookup, insert}
use pads_v.Graph.Kahn.{release}
use pads_v.Graph.Kahn.Steps.{IsOrdered}
use pads_v.Ci.Jobs.{Jobs, needs_of}
use pads_v.Ci.JobOrder.{resolve_job_order}
use pads_v.Ci.Expansion.{expand}
use pads_v.Ci.Plan.{build_dag, order_of}
use pads_v.Ci.Plan.Keyed.{IsBehind, run-build_dag}
use pads_v.Dag.Nodes.{Nodes, CanonicalEvent, deps_of}
use pads_v.Dag.Run.{Shell, success, events_of, run}

abbrev pub one_job : Jobs
one_job =
    (
      "build",
      record {
        id = "build";
        steps =
            record { id = "go"; name = "go"; run = "go build"; working_dir = ""; needs = [] } ∷ [];
        matrix = record { vars = [] };
        needs = [];
      },
    )
    ∷ []

abbrev pub quiet : Shell
quiet action = success "done"

abbrev planned : Nodes
planned = (build_dag (λ text. text) (λ key. false) one_job).0

abbrev events_in : {E : Type 0} → Result E (List CanonicalEvent) → List CanonicalEvent
events_in (ok found) = found
events_in (err _) = []

abbrev pub events : List CanonicalEvent
events = events_in (run quiet planned 1)

planned_run : run quiet planned 1 ≡ ok events
unfolding build_dag run sort lookup release insert resolve_job_order needs_of expand
planned_run = refl

run-build_dag_example :
    (order : List String) × (events ≡ events_of quiet planned order)
    × ((k : String) → count k order ≤ count k (keys planned))
    × IsOrdered (deps_of planned) [] order
    × IsBehind (order_of (resolve_job_order one_job)) planned [] order
run-build_dag_example =
    run-build_dag (λ text. text) (λ key. false) one_job quiet 1 events planned_run
