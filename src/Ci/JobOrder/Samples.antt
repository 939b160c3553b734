-- ===== src/Ci/JobOrder/Samples.antt =====
-- The order of jobs on small runs.
use pads_v.Common.{ℕ, ◌≡◌, refl, String, List, [], ◌∷◌, map, arith, ◌⊎◌, ◌==◌, eq_iff, bit, ok, err}
use pads_v.Common.Count.{bit_apart, IsUnique, SameItems}
use pads_v.Common.Sorting.{sort}
use pads_v.Common.Table.{keys, lookup}
use pads_v.Graph.Kahn.{release}
use pads_v.Graph.Kahn.Steps.{IsOrdered, IsClosed, IsRanked}
use pads_v.Ci.Jobs.{Job, Jobs, job_at, needs_of}
use pads_v.Ci.JobOrder.{unknown_job, cycle_detected, resolve_job_order, resolve_keys}
use pads_v.Ci.JobOrder.Sound.{
  IsDangling, resolve_job_order-IsOrdered, resolve_job_order_total, resolve_job_order-err,
}

abbrev job : String → List String → Job
job id needs = record { id = id; steps = []; matrix = record { vars = [] }; needs = needs }

abbrev two_jobs : Jobs
two_jobs = ("test", job "test" ("build" ∷ [])) ∷ ("build", job "build" []) ∷ []

two_jobs-IsUnique : IsUnique (keys two_jobs)
two_jobs-IsUnique k = omega (arith, bit_apart "test" "build" k refl)

abbrev ordered_jobs : List Job
ordered_jobs = job "build" [] ∷ job "test" ("build" ∷ []) ∷ []

two_jobs_order : resolve_job_order two_jobs ≡ ok ordered_jobs
unfolding resolve_job_order resolve_keys sort needs_of lookup release
two_jobs_order = refl

resolve_job_order-IsOrdered_example :
    (order : List String) × (map (job_at two_jobs) order ≡ ordered_jobs)
    × SameItems order (keys two_jobs)
    × IsOrdered (needs_of two_jobs) [] order
resolve_job_order-IsOrdered_example =
    resolve_job_order-IsOrdered two_jobs ordered_jobs two_jobs-IsUnique two_jobs_order

abbrev stage : String → ℕ
stage k = bit ("test" == k)

two_jobs-IsClosed : IsClosed (needs_of two_jobs) (keys two_jobs)
unfolding needs_of lookup
two_jobs-IsClosed k d known needed =
    ground (arith, eq_iff "test" k, eq_iff "build" k, eq_iff "build" d, eq_iff "test" d)

two_jobs-IsRanked : IsRanked stage (needs_of two_jobs) (keys two_jobs)
unfolding needs_of lookup
two_jobs-IsRanked k d known needed = ground (
  arith,
  eq_iff "test" k,
  eq_iff "build" k,
  eq_iff "build" d,
  eq_iff "test" d,
  bit_apart "test" "build" k refl,
  bit_apart "test" "build" d refl,
)

resolve_job_order_total_example : (result : List Job) × (resolve_job_order two_jobs ≡ ok result)
resolve_job_order_total_example =
    resolve_job_order_total two_jobs stage two_jobs-IsUnique two_jobs-IsClosed two_jobs-IsRanked

-- The same jobs with a cycle.
abbrev cyclic_jobs : Jobs
cyclic_jobs = ("test", job "test" ("build" ∷ [])) ∷ ("build", job "build" ("test" ∷ [])) ∷ []

cyclic_jobs-IsUnique : IsUnique (keys cyclic_jobs)
cyclic_jobs-IsUnique k = omega (arith, bit_apart "test" "build" k refl)

cyclic_jobs_fail : resolve_job_order cyclic_jobs ≡ err cycle_detected
unfolding resolve_job_order resolve_keys sort needs_of lookup release
cyclic_jobs_fail = refl

resolve_job_order-err_example :
    ((d : String) × (cycle_detected ≡ unknown_job d) × IsDangling cyclic_jobs d)
    ⊎ ((cycle_detected ≡ cycle_detected)
        × ((rank : String → ℕ) → ¬ IsRanked rank (needs_of cyclic_jobs) (keys cyclic_jobs)))
resolve_job_order-err_example =
    resolve_job_order-err cyclic_jobs cycle_detected cyclic_jobs-IsUnique cyclic_jobs_fail
