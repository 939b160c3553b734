-- ===== src/Ci/JobOrder/Loop.antt =====
-- The second loop of `ResolveJobOrder` (internal/ci/dag.go).
use pads_v.Common.{
  ℕ, zero, suc, ◌+◌, ◌*◌, ◌<◌, String, ◌≡◌, refl, List, [], ◌∷◌, ◌++◌, arith, eqb, length,
  length-append, keep, ok,
}
use pads_v.Common.Count.{count, Has, IsUnique, count-append, count-keep}
use pads_v.Common.Sorting.{sort, count-sort}
use pads_v.Graph.Kahn.{Waiting, release, release-Waiting}
use pads_v.Graph.Kahn.Steps.{
  Finished, missing-nil, IsOrdered, IsOrdered-snoc, popped_needs, pop-Waiting, done_bound,
}
use pads_v.Graph.Edges.{Edges, no_edges}
use pads_v.Ci.Jobs.{Jobs, needs_of}
use pads_v.Ci.JobOrder.{enqueue, order_loop}
use pads_v.Ci.JobOrder.Scan.{IsScanned}

module _ {jobs : Jobs} {ids : List String} {edges : Edges} (unique : IsUnique ids)
    (scanned : IsScanned jobs ids no_edges edges) where
  pub start-Waiting :
      Waiting (needs_of jobs) ids [] (keep (λ id. eqb (edges.indegree id) 0) ids) edges.indegree []
  start-Waiting = record {
    left = λ k h.
        let once : count k ids ≡ 1 = omega (arith, unique k) in
        let e : edges.indegree k ≡ 0 + 1 * length (needs_of jobs k) =
          rw once at (scanned.indegree k) in
        omega (arith, e, missing-nil (needs_of jobs k));
    once = λ k. ground (arith, unique k, count-keep (λ id. eqb (edges.indegree id) 0) k ids);
  }

  count-dependents :
      (d k : String) → Has ids k → count k (sort (edges.graph d)) ≡ count d (needs_of jobs k)
  count-dependents d k h =
      let once : count k ids ≡ 1 = omega (arith, unique k) in
      let e : count k (edges.graph d) ≡ 0 + 1 * count d (needs_of jobs k) =
        rw once at (scanned.graph d k) in
      omega (arith, e, count-sort k (edges.graph d))

  dependents_known : (d k : String) → Has (sort (edges.graph d)) k → Has ids k
  dependents_known d k h = grind (arith, count-sort k (edges.graph d), scanned.graph d k)

  pub order_loop_total :
      (fuel : ℕ) (queue : List String) (indegree : String → ℕ) (done : List String)
      → length ids < fuel + length done
      → Waiting (needs_of jobs) ids [] queue indegree done
      → IsOrdered (needs_of jobs) [] done
      → (result : List String) × (order_loop fuel edges.graph queue indegree done ≡ ok result)
        × Finished (needs_of jobs) ids result
  unfolding order_loop
  order_loop_total fuel [] indegree done enough w o =
      (done, refl, record { counters = indegree; waiting = w; ordered = o })
  order_loop_total zero (c ∷ queue) indegree done enough w o =
      absurd (omega (arith, done_bound unique w))
  order_loop_total (suc fuel) (c ∷ queue) indegree done enough w o =
      let (queue', indegree') = release enqueue (sort (edges.graph c)) queue indegree in
      order_loop_total fuel queue' indegree' (done ++ c ∷ [])
        (omega (arith, length-append done (c ∷ [])))
        (release-Waiting enqueue (λ k n q. ground (arith, count-append k q (n ∷ [])))
          (sort (edges.graph c)) queue indegree (dependents_known c)
          (pop-Waiting c (sort (edges.graph c)) (count-dependents c) w))
        (IsOrdered-snoc (needs_of jobs) [] done c o (popped_needs c w))
