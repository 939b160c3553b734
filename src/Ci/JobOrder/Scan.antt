-- ===== src/Ci/JobOrder/Scan.antt =====
-- What the first loop of `ResolveJobOrder` builds: the edges, counted, or the dependency that is
-- no job.
use pads_v.Common.{
  ◌+◌, ◌*◌, ◌==◌, String, ◌≡◌, true, false, List, [], ◌∷◌, inl, inr, arith, eq_iff, if◌then◌else◌,
  length, ok, err, Bool-cases, >>=-eq-ok, >>=-eq-err,
}
use pads_v.Common.Count.{count, Has, count-append, ==_self}
use pads_v.Common.Sorting.{sort, count-sort, length-sort}
use pads_v.Graph.Edges.{Edges, add_edge}
use pads_v.Ci.Jobs.{Jobs, needs_of}
use pads_v.Ci.JobOrder.{OrderError, unknown_job, is_known, scan_deps, scan_jobs}

-- After the dependencies of one job.
record Scanned (jobs : Jobs) (id : String) (deps : List String) (e e' : Edges) : Type 0 where
  indegree : (k : String) → e'.indegree k ≡ e.indegree k + (if id == k then length deps else 0)
  graph :
      (d k : String)
      → count k (e'.graph d) ≡ count k (e.graph d) + (if id == k then count d deps else 0)
  known : (d : String) → Has deps d → is_known jobs d ≡ true

scan_deps-Scanned :
    (jobs : Jobs) (id : String) (deps : List String) (e : Edges) {e' : Edges}
    → scan_deps jobs id deps e ≡ ok e'
    → Scanned jobs id deps e e'
unfolding scan_deps
scan_deps-Scanned jobs id [] e {e'} h = record {
  indegree = λ k. ground arith;
  graph = λ d k. ground arith;
  known = λ d m. absurd (omega arith);
}
scan_deps-Scanned jobs id (dep ∷ deps) e {e'} h = elim (Bool-cases (is_known jobs dep)) [
  | inl listed ↦
      let rest = scan_deps-Scanned jobs id deps (add_edge id dep e) {e' = e'} (ground arith) in
      record {
        indegree = λ k. ground (arith, rest.indegree k, eq_iff id k);
        graph = λ d k. ground (
          arith,
          rest.graph d k,
          eq_iff id k,
          eq_iff dep d,
          count-append k (e.graph dep) (id ∷ []),
        );
        known = λ d m. ground (arith, eq_iff dep d, λ (q : Has deps d). rest.known d q);
      }
  | inr absent ↦ absurd (ground arith)
]

-- The error names a dependency of the job that is no job.
scan_deps-err :
    (jobs : Jobs) (id : String) (deps : List String) (e : Edges) {x : OrderError}
    → scan_deps jobs id deps e ≡ err x
    → (d : String) × (x ≡ unknown_job d) × Has deps d × (is_known jobs d ≡ false)
unfolding scan_deps
scan_deps-err jobs id [] e h = absurd (cc)
scan_deps-err jobs id (dep ∷ deps) e {x} h = elim (Bool-cases (is_known jobs dep)) [
  | inl listed ↦
      let (d, named, m, absent) =
        scan_deps-err jobs id deps (add_edge id dep e) {x = x} (ground arith) in
      (d, named, omega arith, absent)
  | inr absent ↦ (dep, ground arith, ground (arith, ==_self dep), absent)
]

-- After all the jobs. `needs` counts with the multiplicity of the id in the list.
pub record IsScanned (jobs : Jobs) (ids : List String) (e e' : Edges) : Type 0 where
  pub indegree :
      (k : String) → e'.indegree k ≡ e.indegree k + count k ids * length (needs_of jobs k)
  pub graph :
      (d k : String)
      → count k (e'.graph d) ≡ count k (e.graph d) + count k ids * count d (needs_of jobs k)
  pub known : (k d : String) → Has ids k → Has (needs_of jobs k) d → is_known jobs d ≡ true

pub scan_jobs-IsScanned :
    (jobs : Jobs) (ids : List String) (e : Edges) {e' : Edges}
    → scan_jobs jobs ids e ≡ ok e'
    → IsScanned jobs ids e e'
unfolding scan_jobs
scan_jobs-IsScanned jobs [] e h = record {
  indegree = λ k. ground arith;
  graph = λ d k. ground arith;
  known = λ k d m. absurd (omega arith);
}
scan_jobs-IsScanned jobs (id ∷ ids) e {e'} h =
    let (middle, first, then_rest) =
      >>=-eq-ok (scan_deps jobs id (sort (needs_of jobs id)) e) (λ x. scan_jobs jobs ids x) h in
    let one = scan_deps-Scanned jobs id (sort (needs_of jobs id)) e first in
    let rest = scan_jobs-IsScanned jobs ids middle then_rest in
    record {
      indegree = λ k.
          ground
            (arith, eq_iff id k, one.indegree k, rest.indegree k, length-sort (needs_of jobs id));
      graph = λ d k.
          ground
            (arith, eq_iff id k, one.graph d k, rest.graph d k, count-sort d (needs_of jobs id));
      known = λ k d m q. elim (Bool-cases (id == k)) [
        | inl same ↦
            one.known d
              (omega (arith, count-sort d (needs_of jobs id), rw (← (eq_iff id k).0 same) at q))
        | inr other ↦ rest.known k d (ground arith) q
      ];
    }

pub scan_jobs-err :
    (jobs : Jobs) (ids : List String) (e : Edges) {x : OrderError}
    → scan_jobs jobs ids e ≡ err x
    → (k d : String) × (x ≡ unknown_job d)
      × Has ids k
      × Has (needs_of jobs k) d
      × (is_known jobs d ≡ false)
unfolding scan_jobs
scan_jobs-err jobs [] e h = absurd (cc)
scan_jobs-err jobs (id ∷ ids) e {x} h =
    elim (>>=-eq-err (scan_deps jobs id (sort (needs_of jobs id)) e) (λ a. scan_jobs jobs ids a)
      h) [
        | inl first ↦
            let (d, named, m, absent) =
              scan_deps-err jobs id (sort (needs_of jobs id)) e {x = x} first in
            (
              id,
              d,
              named,
              ground (arith, ==_self id),
              omega (arith, count-sort d (needs_of jobs id)),
              absent,
            )
        | inr (middle, _, later) ↦
            let (k, d, named, m, n, absent) = scan_jobs-err jobs ids middle {x = x} later in
            (k, d, named, omega arith, n, absent)
      ]
