-- ===== src/Ci/Plan/Keyed.antt =====
-- The graph of the jobs is one that the executor takes.
use pads_v.Common.{◌≢◌, ◌++◌, All, some, ℕ, ◌≤◌, ◌≡◌, refl, String, Bool, List, [], ◌∷◌, arith, ok}
use pads_v.Common.Count.{count, Has, bit_self}
use pads_v.Common.Table.{keys, lookup}
use pads_v.Graph.Kahn.Steps.{IsOrdered}
use pads_v.Ci.Jobs.{Job, Jobs, Step}
use pads_v.Ci.Expansion.{expand}
use pads_v.Ci.JobOrder.{resolve_job_order}
use pads_v.Ci.Plan.Ended.{Waits, run_id}
use pads_v.Ci.Plan.{add_jobs, build_dag, order_of}
use pads_v.Dag.Nodes.{Node, Nodes, step_run, job_end, CanonicalEvent, deps_of}
use pads_v.Dag.Run.{Shell, events_of, run}
use pads_v.Dag.Run.Sound.{run-IsOrdered}
use pads_v.Ci.Plan.Planned.{
  Among, all_jobs, job_start_id, cache_id, IsGraph, lookup-IsPlanned, add_jobs-IsGraph,
}

-- In an order of nodes, every node that runs a step stands behind the start of its job and the cache
-- of its step, and every node that ends a job behind the runs of the steps of a job with its
-- identifier, where the matrix of that has a combination.
abbrev pub IsBehind : List Job → Nodes → List String → List String → Type 0
IsBehind jobs nodes seen [] = Unit
IsBehind jobs nodes seen (k ∷ ks) =
    ((n : Node)
      → lookup k nodes ≡ some n
      → (n.type ≡ step_run
          → Has seen (job_start_id n.job_id) × Has seen (cache_id n.job_id n.step_id))
        × (n.type ≡ job_end
            → (job : Job) × Among job jobs
              × (n.job_id ≡ job.id)
              × (expand job.matrix ≢ [] → All (Waits seen job) job.steps)))
    × IsBehind jobs nodes (seen ++ k ∷ []) ks

All-Waits_seen :
    (job : Job) (steps : List Step) (ids seen : List String)
    → ((d : String) → Has ids d → Has seen d)
    → All (Waits ids job) steps
    → All (Waits seen job) steps
All-Waits_seen job [] ids seen h waits = tt
All-Waits_seen job (s ∷ steps) ids seen h (first, rest) =
    (h (run_id job s) first, All-Waits_seen job steps ids seen h rest)

IsOrdered-IsBehind :
    (jobs : List Job) (nodes : Nodes) (seen order : List String)
    → IsGraph jobs nodes
    → IsOrdered (deps_of nodes) seen order
    → IsBehind jobs nodes seen order
unfolding deps_of
IsOrdered-IsBehind jobs nodes seen [] g o = tt
IsOrdered-IsBehind jobs nodes seen (k ∷ ks) g (first, rest) = (
  λ n found.
      let (steps, ends) = lookup-IsPlanned jobs k nodes n g.planned found in
      let needs : deps_of nodes k ≡ n.dependencies = rw (found, deps_of) refl in
      let seen_all : (d : String) → Has n.dependencies d → Has seen d =
        λ d has. first d (rw needs has) in
      (
        λ runs. (
          seen_all (job_start_id n.job_id)
              (rw (steps runs) (omega (arith, bit_self (job_start_id n.job_id)))),
          seen_all (cache_id n.job_id n.step_id)
              (rw (steps runs) (omega (arith, bit_self (cache_id n.job_id n.step_id)))),
        ),
        λ closes.
            let (job, known, same, waits) = ends closes in
            (
              job,
              known,
              same,
              λ some_one.
                  All-Waits_seen job job.steps n.dependencies seen seen_all (waits some_one),
            ),
      ),
  IsOrdered-IsBehind jobs nodes (seen ++ k ∷ []) ks g rest,
)

-- Whatever the jobs, the cache and the commands do, a run of the graph that BuildDAG makes, when it
-- returns events, has executed nodes of that graph in an order, each at most once and behind all that
-- it depends on, and the events are theirs in that order. In it, a node that runs a step stands behind
-- the node that starts its job and the one of the step's cache, and a node that ends a job stands
-- behind the runs of all the steps of an ordered job with its identifier, where the matrix of that job
-- has a combination.
pub run-build_dag :
    (sha : String → String) (hit : String → Bool) (jobs : Jobs) (shell : Shell) (max_parallel : ℕ)
    (events : List CanonicalEvent)
    → run shell (build_dag sha hit jobs).0 max_parallel ≡ ok events
    → let nodes = (build_dag sha hit jobs).0 in
      (order : List String) × (events ≡ events_of shell nodes order)
      × ((k : String) → count k order ≤ count k (keys nodes))
      × IsOrdered (deps_of nodes) [] order
      × IsBehind (order_of (resolve_job_order jobs)) nodes [] order
unfolding build_dag
run-build_dag sha hit jobs shell max_parallel events h =
    let order = order_of (resolve_job_order jobs) in
    let g =
      add_jobs-IsGraph order order [] (all_jobs order)
        (record { unique = λ k. omega arith; keyed = tt; planned = tt }) in
    let (ran, same, once, ordered) =
      run-IsOrdered shell (add_jobs order []) max_parallel g.unique g.keyed events h in
    (ran, same, once, ordered, IsOrdered-IsBehind order (add_jobs order []) [] ran g ordered)
