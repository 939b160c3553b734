-- ===== src/Ci/JobOrder.antt =====
-- internal/ci/dag.go: the order in which the jobs run. The result is kept as the keys of the jobs,
-- which the last line reads, and the loop takes fuel; `out_of_fuel` is for where it is spent.
pub mod Scan
pub mod Loop
pub mod Sound
mod Samples
use pads_v.Common.{
  ℕ, zero, suc, ◌+◌, String, Bool, true, false, List, [], ◌∷◌, ◌++◌, Option, none, some, map, eqb,
  if◌then◌else◌, length, keep, Result, ok, err, ◌>>=◌,
}
use pads_v.Common.Sorting.{sort}
use pads_v.Common.Table.{keys, lookup, put}
use pads_v.Graph.Edges.{Edges, no_edges, add_edge}
use pads_v.Graph.Kahn.{release}
use pads_v.Ci.Jobs.{Job, Jobs, job_at, needs_of}

pub data OrderError : Type 0 where
  unknown_job : String → OrderError
  cycle_detected : OrderError
  out_of_fuel : OrderError

abbrev pub is_known : Jobs → String → Bool
is_known jobs dep = elim (lookup dep jobs) [ none ↦ false | some _ ↦ true ]

scan_deps : Jobs → String → List String → Edges → Result OrderError Edges
scan_deps jobs id [] e = ok e
scan_deps jobs id (dep ∷ deps) e =
    if is_known jobs dep then scan_deps jobs id deps (add_edge id dep e) else err (unknown_job dep)

pub scan_jobs : Jobs → List String → Edges → Result OrderError Edges
unfolding scan_deps
scan_jobs jobs [] e = ok e
scan_jobs jobs (id ∷ ids) e = do
  e' ← scan_deps jobs id (sort (needs_of jobs id)) e
  scan_jobs jobs ids e'

abbrev pub enqueue : List String → String → List String
enqueue queue n = queue ++ n ∷ []

pub order_loop :
    ℕ
    → (String → List String)
    → List String
    → (String → ℕ)
    → List String
    → Result OrderError (List String)
order_loop fuel graph [] indegree result = ok result
order_loop zero graph (current ∷ queue) indegree result = err out_of_fuel
order_loop (suc fuel) graph (current ∷ queue) indegree result =
    let (queue', indegree') = release enqueue (sort (graph current)) queue indegree in
    order_loop fuel graph queue' indegree' (result ++ current ∷ [])

pub resolve_keys : Jobs → Result OrderError (List String)
unfolding scan_jobs order_loop
resolve_keys jobs = do
  let ids = sort (keys jobs)
  e ← scan_jobs jobs ids no_edges
  let queue = keep (λ id. eqb (e.indegree id) 0) ids
  result ← order_loop (suc (length ids)) e.graph queue e.indegree []
  if eqb (length result) (length jobs) then ok result else err cycle_detected

unfoldable pub resolve_job_order : Jobs → Result OrderError (List Job)
unfolding resolve_keys
resolve_job_order jobs = do result ← resolve_keys jobs; ok (map (job_at jobs) result)
