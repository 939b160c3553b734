-- ===== src/Ci/JobOrder/Sound.antt =====
-- What `ResolveJobOrder` of internal/ci/dag.go returns, and when it fails.
use pads_v.Common.{
  sym, ℕ, suc, String, ◌≡◌, refl, true, List, [], ◌⊎◌, inl, inr, arith, eqb, if◌then◌else◌, length,
  keep, ok, err, Bool-cases, >>=-eq-ok, map, Option-cases, Result-cases, ◌∙◌,
}
use pads_v.Common.Count.{Has, SameItems, IsUnique, length-SameItems}
use pads_v.Common.Sorting.{sort, count-sort, length-sort}
use pads_v.Common.Table.{keys, lookup, lookup-Has, Has-lookup, length-keys}
use pads_v.Graph.Kahn.Steps.{
  Finished, IsOrdered, IsRanked, IsClosed, ranked-SameItems, full-SameItems,
}
use pads_v.Graph.Edges.{Edges, no_edges}
use pads_v.Ci.Jobs.{Job, Jobs, job_at, needs_of}
use pads_v.Ci.JobOrder.{
  OrderError, unknown_job, cycle_detected, is_known, scan_jobs, resolve_keys, resolve_job_order,
}
use pads_v.Ci.JobOrder.Scan.{scan_jobs-IsScanned, scan_jobs-err}
use pads_v.Ci.JobOrder.Loop.{start-Waiting, order_loop_total}

known-Has : (jobs : Jobs) (d : String) → is_known jobs d ≡ true → Has (keys jobs) d
known-Has jobs d h = elim (Option-cases (lookup d jobs)) [
  | inl absent ↦ absurd (ground arith)
  | inr (job, found) ↦ Has-lookup d jobs {v = job} found
]

Has-known : (jobs : Jobs) (d : String) → Has (keys jobs) d → is_known jobs d ≡ true
Has-known jobs d h = let (job, found) = lookup-Has d jobs h in rw (found, is_known)

-- Some dependency of some job is no job.
abbrev pub IsDangling : Jobs → String → Type 0
IsDangling jobs d = (k : String) × Has (keys jobs) k × Has (needs_of jobs k) d × ¬ Has (keys jobs) d

-- What `resolve_keys` comes to, once the scan has passed.
record Outcome (jobs : Jobs) : Type 0 where
  result : List String
  finished : Finished (needs_of jobs) (sort (keys jobs)) result
  closed : IsClosed (needs_of jobs) (sort (keys jobs))
  returned :
      resolve_keys jobs
      ≡ (if eqb (length result) (length jobs) then ok result else err cycle_detected)

sorted-IsUnique : (l : List String) → IsUnique l → IsUnique (sort l)
sorted-IsUnique l unique k = omega (arith, unique k, count-sort k l)

length-ids : (jobs : Jobs) → length (sort (keys jobs)) ≡ length jobs
length-ids jobs = length-sort (keys jobs) ∙ length-keys jobs

scanned-Outcome :
    (jobs : Jobs) {edges : Edges}
    → IsUnique (keys jobs)
    → scan_jobs jobs (sort (keys jobs)) no_edges ≡ ok edges
    → Outcome jobs
unfolding resolve_keys
scanned-Outcome jobs {edges} unique h =
    let ids = sort (keys jobs) in
    let scanned = scan_jobs-IsScanned jobs ids no_edges h in
    let (result, looped, finished) =
      order_loop_total (sorted-IsUnique (keys jobs) unique) scanned (suc (length ids))
        (keep (λ id. eqb (edges.indegree id) 0) ids) edges.indegree [] (omega arith)
        (start-Waiting (sorted-IsUnique (keys jobs) unique) scanned) tt in
    record {
      result = result;
      finished = finished;
      closed = λ k d known m.
          omega (arith, known-Has jobs d (scanned.known k d known m), count-sort d (keys jobs));
      returned = rw (h, looped) refl;
    }

scan_cases :
    (jobs : Jobs)
    → IsUnique (keys jobs)
    → Outcome jobs ⊎ ((d : String) × (resolve_keys jobs ≡ err (unknown_job d)) × IsDangling jobs d)
unfolding resolve_keys
scan_cases jobs unique = elim (Result-cases (scan_jobs jobs (sort (keys jobs)) no_edges)) [
  | inl (edges, h) ↦ inl (scanned-Outcome jobs unique h)
  | inr (x, h) ↦
      let (k, d, named, known, m, absent) = scan_jobs-err jobs (sort (keys jobs)) no_edges h in
      inr (
        d,
        rw (h, named) refl,
        (k, omega (arith, count-sort k (keys jobs)), m, λ q. ground (arith, Has-known jobs d q)),
      )
]

module _ {jobs : Jobs} (unique : IsUnique (keys jobs)) (out : Outcome jobs) where
  Outcome-full : length out.result ≡ length jobs → SameItems out.result (sort (keys jobs))
  Outcome-full full =
      full-SameItems out.finished.waiting (sorted-IsUnique (keys jobs) unique)
        (full ∙ sym (length-ids jobs))

  Outcome-ranked :
      (rank : String → ℕ)
      → IsRanked rank (needs_of jobs) (sort (keys jobs))
      → length out.result ≡ length jobs
  Outcome-ranked rank ranked =
      length-SameItems out.result (sort (keys jobs)) (
        ranked-SameItems out.finished.waiting rank out.closed ranked
          (sorted-IsUnique (keys jobs) unique))
      ∙ length-ids jobs

-- For jobs under distinct keys, a list that ResolveJobOrder returns holds the job of every key
-- exactly once, and each job behind all that it needs.
pub resolve_job_order-IsOrdered :
    (jobs : Jobs) (result : List Job)
    → IsUnique (keys jobs)
    → resolve_job_order jobs ≡ ok result
    → (order : List String) × (map (job_at jobs) order ≡ result)
      × SameItems order (keys jobs)
      × IsOrdered (needs_of jobs) [] order
unfolding resolve_job_order
resolve_job_order-IsOrdered jobs result unique h =
    let (order, found, mapped) = >>=-eq-ok (resolve_keys jobs) (λ r. ok (map (job_at jobs) r)) h in
    elim (scan_cases jobs unique) [
      | inl out ↦ elim (Bool-cases (eqb (length out.result) (length jobs))) [
        | inl full ↦
            let same : out.result ≡ order = ground (arith, out.returned, found) in
            (
              order,
              ground arith,
              λ k. rw (← same) (
                  omega
                    (arith, Outcome-full unique out (ground arith) k, count-sort k (keys jobs))),
              rw (← same) out.finished.ordered,
            )
        | inr short ↦ absurd (ground (arith, out.returned, found))
      ]
      | inr (d, failed, _) ↦ absurd (ground (arith, failed, found))
    ]

-- For jobs under distinct keys that need only jobs of the map, with a rank that puts each below
-- those that need it (so there is no cycle), ResolveJobOrder returns an order: it reports no error
-- and does not run out of fuel.
pub resolve_job_order_total :
    (jobs : Jobs) (rank : String → ℕ)
    → IsUnique (keys jobs)
    → IsClosed (needs_of jobs) (keys jobs)
    → IsRanked rank (needs_of jobs) (keys jobs)
    → (result : List Job) × (resolve_job_order jobs ≡ ok result)
unfolding resolve_job_order
resolve_job_order_total jobs rank unique closed ranked = elim (scan_cases jobs unique) [
  | inl out ↦
      let full =
        Outcome-ranked unique out rank
          (λ k d h m. ranked k d (omega (arith, h, count-sort k (keys jobs))) m) in
      (map (job_at jobs) out.result, ground (arith, out.returned))
  | inr (d, failed, (k, known, m, absent)) ↦ absurd (absent (closed k d known m))
]

-- For jobs under distinct keys, an error of ResolveJobOrder has its reason: it names a key that some
-- job needs and that is no job, or it reports a cycle and no rank puts each job below those that
-- need it.
pub resolve_job_order-err :
    (jobs : Jobs) (e : OrderError)
    → IsUnique (keys jobs)
    → resolve_job_order jobs ≡ err e
    → ((d : String) × (e ≡ unknown_job d) × IsDangling jobs d)
      ⊎ ((e ≡ cycle_detected) × ((rank : String → ℕ) → ¬ IsRanked rank (needs_of jobs) (keys jobs)))
unfolding resolve_job_order
resolve_job_order-err jobs e unique h = elim (scan_cases jobs unique) [
  | inl out ↦ elim (Bool-cases (eqb (length out.result) (length jobs))) [
    | inl full ↦ absurd (ground (arith, out.returned))
    | inr short ↦ inr (
      ground (arith, out.returned),
      λ rank ranked.
          let full =
            Outcome-ranked unique out rank
              (λ k d h m. ranked k d (omega (arith, h, count-sort k (keys jobs))) m) in
          ground arith,
    )
  ]
  | inr (d, failed, why) ↦ inl (d, ground (arith, failed), why)
]
